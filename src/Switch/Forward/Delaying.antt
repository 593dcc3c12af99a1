-- ===== src/Switch/Forward/Delaying.antt =====
-- switch1.cpp against switch2.cpp: delaying frames neither loses nor invents one, and leaves the
-- statistics of the ports as they are.
use file_transfer_cmd.Prelude.{
  Bool-cases, List, Option, Option-cases, [], ap, arith, get_elem?, inl, inr, length, length-append,
  none, refl, some, subst, sym, ℕ, ◌++◌, ◌+◌, ◌<◌, ◌==◌, ◌∙◌, ◌∷◌, ◌≡◌, ◌≤◌,
}
use file_transfer_cmd.Doubles.{Doubles}
use file_transfer_cmd.Swap.{Kind, info_reply, info_request, other_kind}
use file_transfer_cmd.Switch.{Cache}
use file_transfer_cmd.Switch.Forward.{
  DelayNet, Frame, FrameEvent, IpProtocol, Net, arrivals, arrives, delay_frame, delay_icmp, find,
  icmp, mark_at, mark_frame, other_protocol, pass_delaying, pass_udp, readdress, received,
  run_delaying, run_udp, send_icmp, send_marked, send_now, sniff_delaying, sniff_udp, udp, wake,
  wakes,
}
use file_transfer_cmd.Switch.Forward.Frames.{
  frames, frames-append, frames-send_all, packets, packets-append, perm_between, send_all-rest,
  split_due-packets, split_due-shorter,
}
use file_transfer_cmd.Switch.Ring.{Delayed, Ring, delay, send_due}
use file_transfer_cmd.Switch.Ring.Delay.{IsQueue, delay-IsQueue, send_due-IsQueue, split_due}
use mathlib.Core.List.{append_assoc, Perm}
use mathlib.Core.List.Perm

-- The net of switch2.cpp `s` is that of switch1.cpp but for what has been sent, and what it has sent
-- is what switch1.cpp has sent and holds, at most `k` frames, in its ring.
pub record Follows {D : Type 0} (n k : ℕ) (s : Net D) (t : DelayNet D) : Type 0 where
  pub q : List (Delayed (Frame D))
  pub o : List (List ℕ × Frame D)
  pub same : s ≡ record t.net { out = o }
  pub all : Perm (frames o) (frames t.net.out ++ packets q)
  pub queue : IsQueue n q t.ring
  pub few : length q ≤ k

module _ {D : Type 0} (d : Doubles D) (layout : Frame D → List ℕ) (n : ℕ) where
  both_send :
      (k : ℕ) (g : Frame D) (s : Net D) (o : List (List ℕ × Frame D)) (q : List (Delayed (Frame D)))
      (r : Ring (Frame D))
      → Perm (frames o) (frames s.out ++ packets q)
      → IsQueue n q r
      → length q ≤ k
      → Follows n k (send_now g (record s { out = o })) (record { net = send_now g s; ring = r })
  unfolding send_now
  both_send k g s o q r p w h = record {
    q = q;
    o = o ++ (s.from, g) ∷ [];
    same = refl;
    all =
        subst (λ l. Perm l (frames (s.out ++ (s.from, g) ∷ []) ++ packets q))
          (sym (frames-append o s.from g))
          (subst (λ l. Perm (frames o ++ g ∷ []) (l ++ packets q))
            (sym (frames-append s.out s.from g))
            (perm_between g (frames o) (frames s.out) (packets q) p));
    queue = w;
    few = h;
  }

  one_delays :
      (k now : ℕ) (g : Frame D) (s : Net D) (o : List (List ℕ × Frame D))
      (q : List (Delayed (Frame D))) (r : Ring (Frame D))
      → Perm (frames o) (frames s.out ++ packets q)
      → IsQueue n q r
      → length q ≤ k
      → k + 1 < n
      → Follows n
          (k + 1)
          (send_now g (record s { out = o }))
          (record { net = s; ring = delay g now r })
  unfolding send_now
  one_delays k now g s o q r p w h room =
      let x : Delayed (Frame D) = record { packet = g; send_time = now + 1000000 } in
      record {
        q = q ++ x ∷ [];
        o = o ++ (s.from, g) ∷ [];
        same = refl;
        all =
            subst (λ l. Perm l (frames s.out ++ packets (q ++ x ∷ [])))
              (sym (frames-append o s.from g))
              (subst (λ l. Perm (frames o ++ g ∷ []) (frames s.out ++ l)) (sym (packets-append q x))
                (subst (Perm (frames o ++ g ∷ []))
                  (append_assoc (frames s.out) (packets q) (g ∷ []))
                  (Perm.append_right (g ∷ []) p)));
        queue = delay-IsQueue n g now q r (omega arith) w;
        few = omega (arith, length-append q (x ∷ []));
      }

  Follows-widen : (k m : ℕ) (s : Net D) (t : DelayNet D) → k ≤ m → Follows n k s t → Follows n m s t
  Follows-widen k m s t h v = record {
    q = v.q;
    o = v.o;
    same = v.same;
    all = v.all;
    queue = v.queue;
    few = omega (arith, v.few);
  }

  module _ (k i now : ℕ) (g : Frame D) (s : Net D) (o : List (List ℕ × Frame D))
      (q : List (Delayed (Frame D))) (r : Ring (Frame D))
      (p : Perm (frames o) (frames s.out ++ packets q)) (w : IsQueue n q r) (h : length q ≤ k) where
    marked_both :
        (oc : Option (Cache D))
        → Follows n k
            (let (s', f') = mark_at d layout oc i g (record s { out = o }) in send_now f' s')
            (record { net = let (s', f') = mark_at d layout oc i g s in send_now f' s'; ring = r })
    unfolding mark_at
    marked_both none = both_send k g s o q r p w h
    marked_both (some c) = both_send k _ _ o q r p w h

    icmp_both :
        (kind : Kind)
        → k + 1 < n
        → Follows n
            (k + 1)
            (send_icmp d layout kind i g (record s { out = o }))
            (delay_icmp d layout kind i g now (record { net = s; ring = r }))
    unfolding send_icmp delay_icmp delay_frame send_marked mark_frame
    icmp_both info_request room =
        Follows-widen k (k + 1) _ _ (omega arith) (marked_both (get_elem? s.caches i))
    icmp_both info_reply room = one_delays k now g s o q r p w h room
    icmp_both (other_kind z) room = elim (Bool-cases (z == 0)) [
      | inl echo ↦ rw echo (one_delays k now g s o q r p w h room)
      | inr other ↦
          rw other (Follows-widen k (k + 1) _ _ (omega arith) (both_send k g s o q r p w h))
    ]

    pass_both :
        (pr : IpProtocol)
        → k + 1 < n
        → Follows n
            (k + 1)
            (pass_udp d layout pr i g (record s { out = o }))
            (pass_delaying d layout pr i g now (record { net = s; ring = r }))
    unfolding pass_udp pass_delaying delay_frame
    pass_both other_protocol room = record {
      q = q;
      o = o;
      same = refl;
      all = p;
      queue = w;
      few = omega arith;
    }
    pass_both udp room = one_delays k now g s o q r p w h room
    pass_both icmp room = icmp_both g.lucp_packet.kind room

  sniff_both :
      (f : Frame D) (k now : ℕ) (t : DelayNet D) (o : List (List ℕ × Frame D))
      (q : List (Delayed (Frame D)))
      → Perm (frames o) (frames t.net.out ++ packets q)
      → IsQueue n q t.ring
      → length q ≤ k
      → k + 1 < n
      → Follows n
          (k + 1)
          (sniff_udp d layout f (record t.net { out = o }))
          (sniff_delaying d layout f now t)
  unfolding sniff_udp sniff_delaying readdress received
  sniff_both f k now t o q p w h room = elim (Option-cases (find f.daddr t.net.routes)) [
    | inl gone ↦
        rw (gone, sniff_udp, sniff_delaying)
          (record { q = q; o = o; same = refl; all = p; queue = w; few = omega arith })
    | inr (i, e) ↦
        rw (e, sniff_udp, sniff_delaying)
          (pass_both k i now (record f { h_source = t.net.if_mac })
            (record t.net { from = f.h_dest }) o q t.ring p w h f.protocol room)
  ]

  arrive_both :
      (f : Frame D) (k now : ℕ) (s : Net D) (t : DelayNet D)
      → Follows n k s t
      → k + 1 < n
      → Follows n (k + 1) (sniff_udp d layout f s) (sniff_delaying d layout f now t)
  arrive_both f k now s t v room =
      subst (λ u. Follows n (k + 1) (sniff_udp d layout f u) (sniff_delaying d layout f now t))
        (sym v.same) (sniff_both f k now t v.o v.q v.all v.queue v.few room)

  wake_both :
      (k now : ℕ) (s : Net D) (t : DelayNet D) → Follows n k s t → Follows n k s (wake now t)
  unfolding wake
  wake_both k now s t v =
      let fuel : ℕ = length t.ring.delay_buf in
      let (sent_now, rest) =
        send_due-IsQueue n fuel now v.q t.ring (omega (arith, v.queue.size, v.queue.room))
          v.queue in
      let gone : List (Frame D) = (send_due fuel now t.ring).0 in
      let q' : List (Delayed (Frame D)) = (split_due now v.q).1 in
      record {
        q = q';
        o = v.o;
        same = v.same ∙ sym (send_all-rest gone t.net v.o);
        all =
            subst (λ l. Perm (frames v.o) (l ++ packets q')) (sym (frames-send_all gone t.net))
              (subst (Perm (frames v.o))
                (ap (λ l. frames t.net.out ++ l)
                    (split_due-packets now v.q ∙ ap (λ l. l ++ packets q') (sym sent_now))
                  ∙ sym (append_assoc (frames t.net.out) gone (packets q')))
                v.all);
        queue = rest;
        few = omega (arith, v.few, split_due-shorter now v.q);
      }

  run_both :
      (es : List (FrameEvent D)) (k : ℕ) (s : Net D) (t : DelayNet D)
      → Follows n k s t
      → k + length es < n
      → (m : ℕ) × Follows n m (run_udp d layout (arrivals es) s) (run_delaying d layout es t)
  unfolding run_udp run_delaying
  run_both [] k s t v room = (k, v)
  run_both (arrives f now ∷ es) k s t v room =
      run_both es (k + 1) (sniff_udp d layout f s) (sniff_delaying d layout f now t)
        (arrive_both f k now s t v (omega arith)) (omega arith)
  run_both (wakes now ∷ es) k s t v room =
      run_both es k s (wake now t) (wake_both k now s t v) (omega arith)

-- Whatever frames come and whenever the sending thread wakes, fewer events than the ring has slots:
-- the switch that delays has the same statistics of its ports, the same routes and the same last
-- address as the one that sends at once on the same frames; and what it has sent, with what it
-- still holds in the ring, is what the other has sent, in some order.
pub run_delaying-Follows :
    {D : Type 0} (d : Doubles D) (layout : Frame D → List ℕ) (n : ℕ) (es : List (FrameEvent D))
    (t : DelayNet D)
    → t.net.out ≡ []
    → IsQueue n [] t.ring
    → length es < n
    → (m : ℕ) × Follows n m (run_udp d layout (arrivals es) t.net) (run_delaying d layout es t)
run_delaying-Follows d layout n es t e w room =
    run_both d layout n es 0 t.net t
      (record {
        q = [];
        o = t.net.out;
        same = refl;
        all = subst (λ l. Perm (frames l) (frames l ++ [])) (sym e) (Perm.refl []);
        queue = w;
        few = omega arith;
      })
      (omega arith)
