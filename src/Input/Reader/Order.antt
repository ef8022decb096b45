-- ===== src/Input/Reader/Order.antt =====
-- When the handler sees the end of its input.
use plexus_core.Base.{
  Text, Bool, true, false, Option, none, some, List, [], ◌∷◌, ◌≡◌, refl, arith, All,
}
use plexus_core.Errors.{Result}
use plexus_core.Input.Ledger.{Ledger, frame_done, input_finished}
use plexus_core.Input.Table.{Items, one, many, Batch, items_len, items_next}
use plexus_core.Input.Reader.{Reading, WireInput, ready, poll_rx, poll_cur, poll_item}

-- The frames have no item left.
abbrev pub AllRead : {J : Type 0} → List (Batch J) → Type 0
AllRead bs = All (λ b. items_len b.items ≡ 0) bs

abbrev pub CurRead : {J : Type 0} → Option (Reading J) → Type 0
CurRead none = Unit
CurRead (some r) = items_len r.items ≡ 0

module _ {J : Type 0} where
  items_next-items_len : (i : Items J) → (items_next i).0 ≡ none → items_len i ≡ 0
  unfolding items_next items_len
  items_next-items_len (one none) h = refl
  items_next-items_len (one (some _)) h = cc
  items_next-items_len (many []) h = refl
  items_next-items_len (many (_ ∷ _)) h = cc

module _ {J T : Type 0} (decode : J → Bool → Result Text T) where
  poll_rx-end :
      (bs : List (Batch J)) (w : WireInput J) (l : Ledger)
      → (poll_rx decode bs w l).2 ≡ ready none
      → (w.rx_open ≡ false) × AllRead bs
  unfolding poll_rx
  poll_rx-end [] w l h = ground arith
  poll_rx-end (b ∷ bs) w l h =
      let n = items_next-items_len b.items in
      let later = poll_rx-end bs w (frame_done b.seq (items_len b.items) b.bytes l) in ground arith

  poll_rx-finished :
      (bs : List (Batch J)) (w : WireInput J) (l : Ledger)
      → (poll_rx decode bs w l).2 ≡ ready none
      → ((poll_rx decode bs w l).0.over ≡ true) × ((poll_rx decode bs w l).1.finished ≡ true)
  unfolding poll_rx input_finished
  poll_rx-finished [] w l h = ground arith
  poll_rx-finished (b ∷ bs) w l h =
      let later = poll_rx-finished bs w (frame_done b.seq (items_len b.items) b.bytes l) in
      ground arith

  poll_cur-end :
      (cur : Option (Reading J)) (w : WireInput J) (l : Ledger)
      → (poll_cur decode cur w l).2 ≡ ready none
      → (w.rx_open ≡ false)
        × AllRead w.rx
        × CurRead cur
        × ((poll_cur decode cur w l).0.over ≡ true)
        × ((poll_cur decode cur w l).1.finished ≡ true)
  poll_cur-end none w l h =
      let (e, all_read) = poll_rx-end w.rx w l h in
      let (over, done) = poll_rx-finished w.rx w l h in (e, all_read, tt, over, done)
  poll_cur-end (some r) w l h =
      let n = items_next-items_len r.items in
      let ends = poll_rx-end w.rx w (frame_done r.seq r.count r.bytes l) in
      let finishes = poll_rx-finished w.rx w (frame_done r.seq r.count r.bytes l) in ground arith

  -- The handler is told of the end of its input for the first time only when no item was refused,
  -- the pipe has let go of its channel, and every item of every frame that came has been read; the
  -- ledger then says that the input is finished.
  pub poll_item-end :
      (w : WireInput J) (l : Ledger)
      → w.over ≡ false
      → (poll_item decode w l).2 ≡ ready none
      → (w.refused ≡ false)
        × (w.rx_open ≡ false)
        × AllRead w.rx
        × CurRead w.cur
        × ((poll_item decode w l).0.over ≡ true)
        × ((poll_item decode w l).1.finished ≡ true)
  unfolding poll_item
  poll_item-end w l o h = ground (arith, poll_cur-end w.cur w l)
