-- ===== src/Input/Frames.antt =====
-- The frames of an input half as they come off the socket (src/plexus/input.rs): notifications
-- (`take_frame`, `input`, `end`), whose JSON serde reads, and binary messages (`take_binary`).
pub mod Bytes
pub mod Binary
use plexus_core.Base.{
  ℕ, ◌+◌, ◌-◌, ◌*◌, Text, codes, Bool, true, false, not, ◌&&◌, ◌||◌, Option, none, some, List, [],
  ◌∷◌, ◌++◌, length, if◌then◌else◌, ltb, ◌==◌, nat_eq, text_eq,
}
use plexus_core.Base.Word.{add64}
use plexus_core.Base.Texts.{rsplit_once}
use plexus_core.Input.Table.{
  Items, one, many, Delivered, malformed, InputTable, arrive, end_, count_stray,
}
use plexus_core.Input.Table
use plexus_core.Input.Frames.Bytes.{drop, be_word}

pub record InputParams (J : Type 0) : Type 0 where
  pub subscription : ℕ
  pub seq : ℕ
  pub items : List J

pub record EndParams : Type 0 where
  pub subscription : ℕ
  pub seq : ℕ

module _ {J : Type 0} where
  abbrev pub total : (J → ℕ) → List J → ℕ
  total size [] = 0
  total size (j ∷ js) = size j + total size js

  abbrev pub batched : List J → Items J
  batched (j ∷ []) = one (some j)
  batched js = many js

  -- `{ns}.input`: `none` where the params do not read as `InputParams`.
  unfoldable pub input :
      (size : J → ℕ) (ns : Text) → Option (InputParams J) → InputTable J → InputTable J × Delivered
  unfolding arrive
  input size ns none t = (t, malformed)
  input size ns (some p) t =
      arrive p.subscription (some ns) p.seq (length p.items) (total size p.items) false
        (batched p.items) t

  -- `{ns}.end`
  unfoldable pub end_frame :
      (ns : Text) → Option EndParams → InputTable J → InputTable J × Delivered
  unfolding end_
  end_frame ns none t = (t, malformed)
  end_frame ns (some p) t = end_ p.subscription ns p.seq t

-- What serde reads of a whole message: its method, whether it has an id, and its params as the
-- params of either kind.
pub record Shape (J : Type 0) : Type 0 where
  pub method : Text
  pub has_id : Bool
  pub input_params : Option (InputParams J)
  pub end_params : Option EndParams

module _ {J : Type 0} where
  abbrev pub take_named :
      (size : J → ℕ) → Shape J → Option (Text × Text) → InputTable J → InputTable J × Bool
  take_named size shape none t = (t, false)
  take_named size shape (some (ns, name)) t =
      if name == codes "input"
      then (count_stray (input size ns shape.input_params t), true)
      else if name == codes "end"
      then (count_stray (end_frame ns shape.end_params t), true)
      else (t, false)

  -- A whole message, if it is an input notification: `true`, it is taken. A message with an id is
  -- the method table's to answer.
  unfoldable pub take_frame : (size : J → ℕ) → Option (Shape J) → InputTable J → InputTable J × Bool
  unfolding input end_frame rsplit_once
  take_frame size none t = (t, false)
  take_frame size (some shape) t =
      if shape.has_id then (t, false) else take_named size shape (rsplit_once b'.' shape.method) t

-- The header of a binary frame: the tag, the subscription, the seq.
abbrev pub binary_input : ℕ
binary_input = 1

abbrev pub binary_header : ℕ
binary_header = 17

abbrev pub first : List ℕ → ℕ
first [] = 0
first (b ∷ bs) = b

abbrev pub stray_binary : InputTable (List ℕ) × Delivered → InputTable (List ℕ) × Delivered
stray_binary (t, Table.not_this_call) =
    (record t { strays = add64 t.strays 1 }, Table.not_this_call)
stray_binary (t, Table.taken) = (t, Table.taken)
stray_binary (t, Table.dropped) = (t, Table.dropped)
stray_binary (t, Table.refused) = (t, Table.refused)
stray_binary (t, Table.malformed) = (t, Table.malformed)

unfoldable pub take_binary : List ℕ → InputTable (List ℕ) → InputTable (List ℕ) × Delivered
unfolding arrive be_word
take_binary frame t =
    if ltb (length frame) binary_header || not (first frame == binary_input)
    then (t, malformed)
    else stray_binary (
        arrive (be_word 8 (drop 1 frame)) none (be_word 8 (drop 9 frame)) 1
          (length frame - binary_header) true (one (some (drop binary_header frame))) t)
