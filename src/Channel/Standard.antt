-- ===== src/Channel/Standard.antt =====
-- The standard questions of a channel (src/plexus/bidirectional/channel.rs and types.rs): their
-- convenience methods and the answers that a fallback makes up. `show` is a value's text, `debug` an
-- answer's.
use plexus_core.Base.{Text, codes, Bool, true, Option, none, some, List, [], ◌∷◌, map, ◌≡◌, refl}
use plexus_core.Errors.{Result, ok, err}
use plexus_core.Json.{Value, null, bool, number, string, array, object}
use plexus_core.Pending.{BidirError}
use plexus_core.Channel.{with_fallback}

pub record SelectOption : Type 0 where
  pub value : Value
  pub label : Text
  pub description : Option Text

pub data StandardRequest : Type 0 where
  confirm_request : (message : Text) (default : Option Bool) → StandardRequest
  prompt_request :
      (message : Text) (default : Option Value) (placeholder : Option Text) → StandardRequest
  select_request :
      (message : Text) (options : List SelectOption) (multi_select : Bool) → StandardRequest
  custom_request : Value → StandardRequest

pub data StandardResponse : Type 0 where
  confirmed : Bool → StandardResponse
  text : Value → StandardResponse
  selected : List Value → StandardResponse
  custom : Value → StandardResponse
  cancelled : StandardResponse

module _ (show : Value → Text) where
  -- A text without its quotes.
  unfoldable pub plain : Value → Text
  plain (string s) = s
  plain null = show null
  plain (bool b) = show (bool b)
  plain (number t) = show (number t)
  plain (array vs) = show (array vs)
  plain (object ms) = show (object ms)

module _ (show : Value → Text) (debug : StandardResponse → Text) where
  unfoldable pub confirmed_of : Result BidirError StandardResponse → Result BidirError Bool
  confirmed_of (err e) = err e
  confirmed_of (ok (confirmed b)) = ok b
  confirmed_of (ok cancelled) = err BidirError.cancelled
  confirmed_of (ok (text v)) = err (BidirError.type_mismatch (codes "Confirmed") (debug (text v)))
  confirmed_of (ok (selected vs)) =
      err (BidirError.type_mismatch (codes "Confirmed") (debug (selected vs)))
  confirmed_of (ok (custom v)) =
      err (BidirError.type_mismatch (codes "Confirmed") (debug (custom v)))

  unfoldable pub text_of : Result BidirError StandardResponse → Result BidirError Text
  unfolding plain
  text_of (err e) = err e
  text_of (ok (text v)) = ok (plain show v)
  text_of (ok cancelled) = err BidirError.cancelled
  text_of (ok (confirmed b)) = err (BidirError.type_mismatch (codes "Text") (debug (confirmed b)))
  text_of (ok (selected vs)) = err (BidirError.type_mismatch (codes "Text") (debug (selected vs)))
  text_of (ok (custom v)) = err (BidirError.type_mismatch (codes "Text") (debug (custom v)))

  unfoldable pub selected_of : Result BidirError StandardResponse → Result BidirError (List Text)
  unfolding plain
  selected_of (err e) = err e
  selected_of (ok (selected vs)) = ok (map (plain show) vs)
  selected_of (ok cancelled) = err BidirError.cancelled
  selected_of (ok (confirmed b)) =
      err (BidirError.type_mismatch (codes "Selected") (debug (confirmed b)))
  selected_of (ok (text v)) = err (BidirError.type_mismatch (codes "Selected") (debug (text v)))
  selected_of (ok (custom v)) = err (BidirError.type_mismatch (codes "Selected") (debug (custom v)))

abbrev pub or_else {ℓ} : {A : Type ℓ} → Option A → A → A
or_else none d = d
or_else (some a) d = a

abbrev pub first_value : List SelectOption → Value
first_value [] = string []
first_value (o ∷ os) = o.value

unfoldable pub auto_confirm : StandardRequest → StandardResponse
auto_confirm (confirm_request m d) = confirmed (or_else d true)
auto_confirm (prompt_request m d p) = text (or_else d (string []))
auto_confirm (select_request m os multi) = selected (first_value os ∷ [])
auto_confirm (custom_request v) = custom v

-- An answer of the question's own kind.
pub data Fits : StandardRequest → StandardResponse → Type 0 where
  fits_confirm : (m : Text) (d : Option Bool) (b : Bool) → Fits (confirm_request m d) (confirmed b)
  fits_prompt :
      (m : Text) (d : Option Value) (p : Option Text) (v : Value)
      → Fits (prompt_request m d p) (text v)
  fits_select :
      (m : Text) (os : List SelectOption) (multi : Bool) (vs : List Value)
      → Fits (select_request m os multi) (selected vs)
  fits_custom : (v w : Value) → Fits (custom_request v) (custom w)

auto_confirm-Fits : (req : StandardRequest) → Fits req (auto_confirm req)
unfolding auto_confirm
auto_confirm-Fits (confirm_request m d) = fits_confirm m d _
auto_confirm-Fits (prompt_request m d p) = fits_prompt m d p _
auto_confirm-Fits (select_request m os multi) = fits_select m os multi _
auto_confirm-Fits (custom_request v) = fits_custom v _

-- What the convenience method reads.
abbrev pub IsRead :
    (show : Value → Text) (debug : StandardResponse → Text)
    → StandardRequest
    → StandardResponse
    → Type 0
IsRead show debug (confirm_request m d) r = (b : Bool) × (confirmed_of show debug (ok r) ≡ ok b)
IsRead show debug (prompt_request m d p) r = (t : Text) × (text_of show debug (ok r) ≡ ok t)
IsRead show debug (select_request m os multi) r =
    (ts : List Text) × (selected_of show debug (ok r) ≡ ok ts)
IsRead show debug (custom_request v) r = Unit

Fits-IsRead :
    (show : Value → Text) (debug : StandardResponse → Text) {req : StandardRequest}
    {r : StandardResponse}
    → Fits req r
    → IsRead show debug req r
unfolding confirmed_of text_of selected_of plain
Fits-IsRead show debug (fits_confirm m d b) = (b, refl)
Fits-IsRead show debug (fits_prompt m d p v) = (plain show v, refl)
Fits-IsRead show debug (fits_select m os multi vs) = (map (plain show) vs, refl)
Fits-IsRead show debug (fits_custom v w) = tt

-- A question that was not answered, for whatever reason, is answered by the fallback of
-- `auto_confirm` with an answer of its own kind, which the question's convenience method reads with
-- no error.
pub with_fallback-Fits :
    (show : Value → Text) (debug : StandardResponse → Text) (req : StandardRequest) (e : BidirError)
    → (r : StandardResponse) × (with_fallback auto_confirm req (some (err e)) ≡ some r)
      × Fits req r
      × IsRead show debug req r
unfolding with_fallback
with_fallback-Fits show debug req e =
    let fits = auto_confirm-Fits req in (auto_confirm req, refl, fits, Fits-IsRead show debug fits)
