-- ===== src/Cam/Returned.antt =====
-- Which meta buffers `mtk_cam_dev_dequeue_frame` gives back, and in what order.
use mt8183_kukui_pmos.Prelude.{
  ℕ, ◌+◌, ◌≡◌, refl, arith, true, List, [], ◌∷◌, ◌==◌, ltb, if◌then◌else◌, some, u32, Bool-cases,
  inl, inr,
}
use mt8183_kukui_pmos.Format.Nodes.{NodeId}
use mt8183_kukui_pmos.Cam.State.{Cam, Buf, Event, buffer_done, state_done, set_at}
use mt8183_kukui_pmos.Cam.Buffers.{
  dequeue_meta, MetaNode, meta_node, enqueued_meta, mtk_cam_dev_dequeue_frame,
}

-- The longest prefix of buffers with a number up to `seq_no`, and what follows it.
abbrev pub passed : ℕ → List Buf → List Buf
passed seq_no [] = []
passed seq_no (b ∷ bs) = if ltb seq_no b.seq_no then [] else b ∷ passed seq_no bs

abbrev pub waiting : ℕ → List Buf → List Buf
waiting seq_no [] = []
waiting seq_no (b ∷ bs) = if ltb seq_no b.seq_no then b ∷ bs else waiting seq_no bs

-- The events of buffers that are done, numbered on from a frame.
abbrev pub meta_events : ℕ → ℕ → NodeId → List Buf → List Event → List Event
meta_events frame now node [] log = log
meta_events frame now node (b ∷ bs) log =
    meta_events (u32 (frame + 1)) now node bs
      (buffer_done (record { node = node; buf = b.id }) state_done (some (frame, now)) ∷ log)

dequeue_meta-passed :
    (seq_no frame now : ℕ) (node : NodeId) (bs : List Buf) (log : List Event)
    → dequeue_meta seq_no frame now node bs log
      ≡ (waiting seq_no bs, meta_events frame now node (passed seq_no bs) log)
unfolding dequeue_meta
dequeue_meta-passed seq_no frame now node [] log = refl
dequeue_meta-passed seq_no frame now node (b ∷ bs) log =
    let next =
      dequeue_meta-passed seq_no (u32 (frame + 1)) now node bs
        (buffer_done (record { node = node; buf = b.id }) state_done (some (frame, now)) ∷ log) in
    elim (Bool-cases (ltb seq_no b.seq_no)) [ inl e ↦ ground arith | inr e ↦ ground (arith, next) ]

-- The number up to which buffers are given back.
abbrev pub last_returned : MetaNode → ℕ → ℕ → Cam → ℕ
last_returned m fbc seq_no c = if fbc == 0 then enqueued_meta m c.p1 else seq_no

-- On a streaming device and an enabled node, `mtk_cam_dev_dequeue_frame` gives back the buffers at
-- the front of the node's list whose number is at most the given one, or at most the last number
-- enqueued where the hardware's FIFO count is 0: in their order, as done, numbered on from the
-- frame. The others stay on the list, and nothing else changes.
pub mtk_cam_dev_dequeue_frame-passed :
    (m : MetaNode) (fbc now frame seq_no : ℕ) (c : Cam)
    → c.enabled (meta_node m) ≡ true
    → c.streaming ≡ true
    → let last = last_returned m fbc seq_no c in
      let bs = c.buf_list (meta_node m) in
      mtk_cam_dev_dequeue_frame m fbc now frame seq_no c ≡ record c {
        buf_list = set_at (meta_node m) (waiting last bs) c.buf_list;
        log = meta_events frame now (meta_node m) (passed last bs) c.log;
      }
unfolding mtk_cam_dev_dequeue_frame
mtk_cam_dev_dequeue_frame-passed m fbc now frame seq_no c h s = ground (
  arith,
  dequeue_meta-passed (last_returned m fbc seq_no c) frame now (meta_node m)
      (c.buf_list (meta_node m)) c.log,
)
