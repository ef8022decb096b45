-- ===== src/Wire/Serializer/Groups.antt =====
-- An open group: its state machine of commas and brackets writes what `commas` and `bracketed` say.
use plexus_core.Base.{
  ℕ, Text, Option, none, some, List, [], ◌∷◌, ◌++◌, ◌≡◌, ◌≢◌, refl, sym, ap, ◌∙◌, if◌then◌else◌,
  map, arith, append_assoc, append-nil,
}
use plexus_core.Wire.Writer.{Machine, contents}
use plexus_core.Wire.Writer.Strings.{escape_text, quoted, contents-escape_text, escape_text-append}
use plexus_core.Wire.Serializer.{
  Written, wrote, and_then, State, empty, first, rest, opens, owes_comma, next, close, open_group,
  close_with, close_variant, concat, write_pieces, collect_str, write_bytes,
}
use plexus_core.Wire.Serializer.Meaning.{
  after_commas, bracketed, option_map, option_map₂, of_variant,
}

-- What is written is the text meant, at the end of the buffer; where none is meant, an error.
abbrev pub Agrees : Option Text → Text → Written → Type 0
Agrees (some t) out w = w ≡ wrote (out ++ t)
Agrees none out w = (why : Text) × (w.error ≡ some why)

-- What the elements of a group write from a state on, and the state after them.
abbrev pub listed : State → List Text → Text
listed state [] = []
listed state (t ∷ ts) = (if owes_comma state then b',' ∷ t else t) ++ after_commas ts

abbrev pub state_after : State → List Text → State
state_after state [] = state
state_after state (t ∷ ts) = rest

abbrev pub AgreesList : Option (List Text) → (State → Text → Text) → State → Text → Written → Type 0
AgreesList (some ts) end state out w =
    w ≡ wrote (end (state_after state ts) (out ++ listed state ts))
AgreesList none end state out w = (why : Text) × (w.error ≡ some why)

pub and_then-ok : (w : Written) (o : Text) (k : Text → Written) → w ≡ wrote o → and_then w k ≡ k o
unfolding and_then
and_then-ok w o k h = rw h refl

pub and_then-failed :
    (w : Written) (why : Text) (k : Text → Written)
    → w.error ≡ some why
    → (and_then w k).error ≡ some why
unfolding and_then
and_then-failed w why k h = ground arith

-- A step that means to go on where it succeeded.
pub Agrees-map :
    (o : Option Text) (f : Text → Text) (out out' : Text) (w : Written) (k : Text → Written)
    → ((t : Text) → k (out ++ t) ≡ wrote (out' ++ f t))
    → Agrees o out w
    → Agrees (option_map f o) out' (and_then w k)
Agrees-map (some t) f out out' w k h a = and_then-ok w (out ++ t) k a ∙ h t
Agrees-map none f out out' w k h (why, e) = (why, and_then-failed w why k e)

after_next :
    (state : State) (t out : Text) (ts : List Text)
    → (next state out ++ t) ++ after_commas ts ≡ out ++ listed state (t ∷ ts)
unfolding next
after_next empty t out ts = simp append_assoc
after_next first t out ts = simp append_assoc
after_next rest t out ts = simp append_assoc

-- An element, then those after it.
pub AgreesList-cons :
    (o : Option Text) (os : Option (List Text)) (end : State → Text → Text) (state : State)
    (out : Text) (w : Written) (k : Text → Written)
    → Agrees o (next state out) w
    → ((out' : Text) → AgreesList os end rest out' (k out'))
    → AgreesList
        (option_map₂ (λ (t : Text) (ts : List Text). t ∷ ts) o os)
        end
        state
        out
        (and_then w k)
unfolding owes_comma
AgreesList-cons none os end state out w k (why, e) later = (why, and_then-failed w why k e)
AgreesList-cons (some t) none end state out w k here later =
    let (why, e) = later (next state out ++ t) in
    (why, ap Written.error (and_then-ok w (next state out ++ t) k here) ∙ e)
AgreesList-cons (some t) (some []) end state out w k here later =
    and_then-ok w (next state out ++ t) k here
    ∙ (later (next state out ++ t) ∙ ap (λ o. wrote (end rest o)) (after_next state t out []))
AgreesList-cons (some t) (some (u ∷ us)) end state out w k here later =
    and_then-ok w (next state out ++ t) k here
    ∙ (later (next state out ++ t) ∙ ap (λ o. wrote (end rest o)) (after_next state t out (u ∷ us)))

-- A group opened in its state, its elements, and its close: the brackets around the texts.
pub group-bracketed :
    (state : State) (o c : ℕ) (ts : List Text) (out : Text)
    → state ≢ rest
    → (state ≡ empty → ts ≡ [])
    → close (state_after state ts) c (open_group state o c out ++ listed state ts)
      ≡ out ++ bracketed o c ts
unfolding close open_group owes_comma
group-bracketed empty o c [] out h k = append-nil (out ++ (o ∷ c ∷ []))
group-bracketed empty o c (t ∷ ts) out h k = ground (arith, k refl)
group-bracketed first o c [] out h k = simp (append_assoc, append-nil)
group-bracketed first o c (t ∷ ts) out h k = simp append_assoc
group-bracketed rest o c ts out h k = absurd (h refl)

pub opens-ne-rest : (len : Option ℕ) → opens len ≢ rest
unfolding opens
opens-ne-rest none h = cc
opens-ne-rest (some n) h = ground arith

-- A group of elements that was opened means its bracketed texts.
pub Agrees-group :
    (os : Option (List Text)) (state : State) (o c : ℕ) (out : Text) (w : Written)
    → state ≢ rest
    → (state ≡ empty → os ≡ some [])
    → AgreesList os (close_with c) state (open_group state o c out) w
    → Agrees (option_map (bracketed o c) os) out w
Agrees-group none state o c out w h k a = a
Agrees-group (some ts) state o c out w h k a =
    a ∙ ap wrote (group-bracketed state o c ts out h (λ e. ground (arith, k e)))

-- The key of a variant stands before what it holds.
pub variant_text :
    (v out before t : Text)
    → before ≡ out ++ (b'{' ∷ (quoted v ++ (b':' ∷ [])))
    → (before ++ t) ++ (b'}' ∷ []) ≡ out ++ of_variant v t
variant_text v out before t e = rw e (simp append_assoc)

-- Within the object of a variant.
pub Agrees-variant_group :
    (os : Option (List Text)) (state : State) (o c : ℕ) (v out before : Text) (w : Written)
    → state ≢ rest
    → (state ≡ empty → os ≡ some [])
    → before ≡ out ++ (b'{' ∷ (quoted v ++ (b':' ∷ [])))
    → AgreesList os (close_variant c) state (open_group state o c before) w
    → Agrees (option_map (λ ts. of_variant v (bracketed o c ts)) os) out w
Agrees-variant_group none state o c v out before w h k e a = a
Agrees-variant_group (some ts) state o c v out before w h k e a =
    a
    ∙ ap wrote (
        ap (λ (t : Text). t ++ (b'}' ∷ []))
          (group-bracketed state o c ts before h (λ e. ground (arith, k e)))
        ∙ variant_text v out before (bracketed o c ts) e)

-- The pieces of a displayed value are one string.
write_pieces-escape_text :
    (machine : Machine) (ps : List Text) (out : Text)
    → write_pieces machine ps out ≡ out ++ escape_text (concat ps)
unfolding write_pieces escape_text
write_pieces-escape_text machine [] out = sym (append-nil out)
write_pieces-escape_text machine (p ∷ ps) out =
    rw
      (
        write_pieces-escape_text machine ps (contents machine p out),
        contents-escape_text machine p out,
        escape_text-append p (concat ps),
      )
      (append_assoc out (escape_text p) (escape_text (concat ps)))

pub collect_str-quoted :
    (machine : Machine) (ps : List Text) (out : Text)
    → collect_str machine ps out ≡ out ++ quoted (concat ps)
unfolding collect_str
collect_str-quoted machine ps out =
    rw (write_pieces-escape_text machine ps (out ++ (b'"' ∷ []))) (simp append_assoc)

state_after-rest : (ts : List Text) → state_after rest ts ≡ rest
state_after-rest [] = refl
state_after-rest (t ∷ ts) = refl

listed-rest : (ts : List Text) → listed rest ts ≡ after_commas ts
unfolding owes_comma
listed-rest [] = refl
listed-rest (t ∷ ts) = refl

pub write_bytes-listed :
    (show_byte : ℕ → Text) (bs : List ℕ) (state : State) (out : Text)
    → write_bytes show_byte bs state out
      ≡ close (state_after state (map show_byte bs)) b']' (out ++ listed state (map show_byte bs))
unfolding write_bytes
write_bytes-listed show_byte [] state out = ap (close state b']') (sym (append-nil out))
write_bytes-listed show_byte (b ∷ bs) state out =
    write_bytes-listed show_byte bs rest (next state out ++ show_byte b)
    ∙ rw (state_after-rest (map show_byte bs), listed-rest (map show_byte bs))
        (ap (λ (o : Text). o ++ (b']' ∷ []))
          (after_next state (show_byte b) out (map show_byte bs)))
