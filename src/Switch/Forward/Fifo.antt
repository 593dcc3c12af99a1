-- ===== src/Switch/Forward/Fifo.antt =====
-- switch_thread.cpp: every frame that is forwarded goes through the ring, so none overtakes another.
use file_transfer_cmd.Prelude.{
  List, Option, Option-cases, [], ap, arith, get_elem?, get_or, inl, inr, length, length-append,
  none, refl, set, some, subst, sym, ℕ, ◌++◌, ◌+◌, ◌<◌, ◌∙◌, ◌∷◌, ◌≡◌, ◌≤◌,
}
use file_transfer_cmd.Doubles.{Doubles}
use file_transfer_cmd.Swap.{Kind, info_reply, info_request, other_kind}
use file_transfer_cmd.Switch.{Cache, mark}
use file_transfer_cmd.Switch.Forward.{
  Frame, FrameEvent, IpProtocol, Net, RingNet, arrivals, arrives, find, icmp, mark_at, mark_frame,
  other_protocol, pass_ring, put_delayed, put_marked, received, ring_icmp, run_ring, send_all,
  sniff_ring, udp, wake_ring, wakes,
}
use file_transfer_cmd.Switch.Forward.Direct.{forward, forward_all, forward_by, forward_icmp}
use file_transfer_cmd.Switch.Forward.Frames.{
  frames, frames-send_all, packets, packets-append, send_all-rest, split_due-packets,
  split_due-shorter,
}
use file_transfer_cmd.Switch.Ring.{Delayed, Ring, put, send_due}
use file_transfer_cmd.Switch.Ring.Delay.{IsQueue, put-IsQueue, send_due-IsQueue, split_due}
use mathlib.Core.List.{append_assoc, append-nil}

-- The statistics are those of `s`, and what has been sent and what is in the ring, at most `k`
-- frames, make up `past` in order.
pub record InLine {D : Type 0} (n k : ℕ) (s : Net D) (past : List (Frame D)) (t : RingNet D)
    : Type 0 where
  pub q : List (Delayed (Frame D))
  pub o : List (List ℕ × Frame D)
  pub same : t.net ≡ record s { out = o }
  pub all : frames t.net.out ++ packets q ≡ past
  pub queue : IsQueue n q t.ring
  pub few : length q ≤ k

module _ {D : Type 0} (d : Doubles D) (layout : Frame D → List ℕ) (n : ℕ) where
  module _ (k : ℕ) (s : Net D) (past : List (Frame D)) (o : List (List ℕ × Frame D))
      (q : List (Delayed (Frame D))) (r : Ring (Frame D)) (ts : List ℕ)
      (p : frames o ++ packets q ≡ past) (w : IsQueue n q r) (h : length q ≤ k)
      (space : k + 1 < n) where
    stays :
        InLine n
          (k + 1)
          s
          (past ++ [])
          (record { net = record s { out = o }; ring = r; times = ts })
    stays = record {
      q = q;
      o = o;
      same = refl;
      all = p ∙ sym (append-nil past);
      queue = w;
      few = omega arith;
    }

    queued :
        (s' : Net D) (f : Frame D) (time : ℕ) (ts' : List ℕ)
        → InLine n
            (k + 1)
            s'
            (past ++ f ∷ [])
            (record { net = record s' { out = o }; ring = put f time r; times = ts' })
    queued s' f time ts' =
        let x : Delayed (Frame D) = record { packet = f; send_time = time } in
        record {
          q = q ++ x ∷ [];
          o = o;
          same = refl;
          all =
              ap (λ l. frames o ++ l) (packets-append q x)
              ∙ sym (append_assoc (frames o) (packets q) (f ∷ []))
              ∙ ap (λ l. l ++ f ∷ []) p;
          queue = put-IsQueue n f time q r (omega arith) w;
          few = omega (arith, length-append q (x ∷ []));
        }

    requested_frame :
        (oc : Option (Cache D)) (i : ℕ) (f : Frame D)
        → InLine n
            (k + 1)
            (mark_at d layout oc i f s).0
            (past ++ (mark_at d layout oc i f s).1 ∷ [])
            (let (s', f') = mark_at d layout oc i f (record s { out = o }) in
              put_marked d layout f' (record { net = s'; ring = r; times = ts }))
    unfolding mark_at put_marked
    requested_frame none i f = queued s f (get_or ts r.head 0) ts
    requested_frame (some c) i f =
        let (c', m) = mark d c f.lucp_packet in
        queued (record s { caches = set s.caches i c' }) _ (get_or ts r.head 0) ts

    icmp_frame :
        (kind : Kind) (i now : ℕ) (f : Frame D)
        → InLine n
            (k + 1)
            (forward_icmp d layout kind i f s).0
            (past ++ (forward_icmp d layout kind i f s).1)
            (ring_icmp d layout kind i f now
              (record { net = record s { out = o }; ring = r; times = ts }))
    unfolding ring_icmp put_delayed mark_frame
    icmp_frame info_request i now f = requested_frame (get_elem? s.caches i) i f
    icmp_frame info_reply i now f = queued s f (now + 3000000) _
    icmp_frame (other_kind z) i now f = queued s f (now + 3000000) _

    by_frame :
        (pr : IpProtocol) (i now : ℕ) (f : Frame D)
        → InLine n
            (k + 1)
            (forward_by d layout pr i f s).0
            (past ++ (forward_by d layout pr i f s).1)
            (pass_ring d layout pr i f now
              (record { net = record s { out = o }; ring = r; times = ts }))
    unfolding pass_ring put_delayed
    by_frame icmp i now f = icmp_frame f.lucp_packet.kind i now f
    by_frame udp i now f = queued s f (now + 3000000) _
    by_frame other_protocol i now f = stays

  frame-InLine :
      (k : ℕ) (s : Net D) (past : List (Frame D)) (o : List (List ℕ × Frame D))
      (q : List (Delayed (Frame D))) (r : Ring (Frame D)) (ts : List ℕ)
      → frames o ++ packets q ≡ past
      → IsQueue n q r
      → length q ≤ k
      → k + 1 < n
      → (now : ℕ) (f : Frame D)
      → InLine n
          (k + 1)
          (forward d layout f s).0
          (past ++ (forward d layout f s).1)
          (sniff_ring d layout f now (record { net = record s { out = o }; ring = r; times = ts }))
  unfolding sniff_ring received
  frame-InLine k s past o q r ts p w h space now f =
      let s₁ : Net D = record s { from = f.h_source } in
      elim (Option-cases (find f.daddr s.routes)) [
        | inl gone ↦ rw (gone, sniff_ring) (stays k s₁ past o q r ts p w h space)
        | inr (i, e) ↦
            rw (e, sniff_ring) (by_frame k s₁ past o q r ts p w h space f.protocol i now f)
      ]

  arrive-InLine :
      (f : Frame D) (k now : ℕ) (s : Net D) (past : List (Frame D)) (t : RingNet D)
      → InLine n k s past t
      → k + 1 < n
      → InLine n
          (k + 1)
          (forward d layout f s).0
          (past ++ (forward d layout f s).1)
          (sniff_ring d layout f now t)
  arrive-InLine f k now s past t v space =
      subst
        (λ u.
          InLine n (k + 1) (forward d layout f s).0 (past ++ (forward d layout f s).1)
            (sniff_ring d layout f now (record t { net = u })))
        (sym v.same)
        (frame-InLine k s past v.o v.q t.ring t.times
          (ap (λ (u : Net D). frames u.out ++ packets v.q) (sym v.same) ∙ v.all) v.queue v.few space
          now f)

  wake-InLine :
      (k now : ℕ) (s : Net D) (past : List (Frame D)) (t : RingNet D)
      → InLine n k s past t
      → InLine n k s past (wake_ring now t)
  unfolding wake_ring
  wake-InLine k now s past t v =
      let fuel : ℕ = length t.ring.delay_buf in
      let (sent_now, rest) =
        send_due-IsQueue n fuel now v.q t.ring (omega (arith, v.queue.size, v.queue.room))
          v.queue in
      let gone : List (Frame D) = (send_due fuel now t.ring).0 in
      let q' : List (Delayed (Frame D)) = (split_due now v.q).1 in
      record {
        q = q';
        o = (send_all gone t.net).out;
        same =
            send_all-rest gone t.net (send_all gone t.net).out
            ∙ ap (λ (u : Net D). record u { out = (send_all gone t.net).out }) v.same;
        all =
            ap (λ l. l ++ packets q') (frames-send_all gone t.net)
            ∙ append_assoc (frames t.net.out) gone (packets q')
            ∙ ap (λ l. frames t.net.out ++ l)
                (ap (λ l. l ++ packets q') sent_now ∙ sym (split_due-packets now v.q))
            ∙ v.all;
        queue = rest;
        few = omega (arith, v.few, split_due-shorter now v.q);
      }

  run-InLine :
      (es : List (FrameEvent D)) (k : ℕ) (s : Net D) (past : List (Frame D)) (t : RingNet D)
      → InLine n k s past t
      → k + length es < n
      → (m : ℕ) × InLine n m
          (forward_all d layout (arrivals es) s).0
          (past ++ (forward_all d layout (arrivals es) s).1)
          (run_ring d layout es t)
  unfolding run_ring
  run-InLine [] k s past t v space = (k, rw (append-nil past) v)
  run-InLine (arrives f now ∷ es) k s past t v space =
      let next : Net D × List (Frame D) = forward d layout f s in
      let (m, v') =
        run-InLine es (k + 1) next.0 (past ++ next.1) (sniff_ring d layout f now t)
          (arrive-InLine f k now s past t v (omega arith)) (omega arith) in
      (
        m,
        subst
            (λ l.
              InLine n m (forward_all d layout (arrivals es) next.0).0 l
                (run_ring d layout es (sniff_ring d layout f now t)))
            (append_assoc past next.1 (forward_all d layout (arrivals es) next.0).1) v',
      )
  run-InLine (wakes now ∷ es) k s past t v space =
      run-InLine es k s past (wake_ring now t) (wake-InLine k now s past t v) (omega arith)

-- Whatever frames come and whenever the sending thread wakes, fewer events than the ring has slots:
-- what switch_thread.cpp has sent, followed by what it holds in its ring, is the frames that are
-- forwarded, the requests marked, in the order in which they came; its statistics are those of the
-- marks in that order.
pub run_ring-InLine :
    {D : Type 0} (d : Doubles D) (layout : Frame D → List ℕ) (n : ℕ) (es : List (FrameEvent D))
    (t : RingNet D)
    → t.net.out ≡ []
    → IsQueue n [] t.ring
    → length es < n
    → (m : ℕ) × InLine n m
        (forward_all d layout (arrivals es) t.net).0
        (forward_all d layout (arrivals es) t.net).1
        (run_ring d layout es t)
run_ring-InLine d layout n es t e w space =
    run-InLine d layout n es 0 t.net [] t
      (record {
        q = [];
        o = t.net.out;
        same = refl;
        all = ap (λ l. frames l ++ []) e;
        queue = w;
        few = omega arith;
      })
      (omega arith)
