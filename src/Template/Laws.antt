-- ===== src/Template/Laws.antt =====
-- What the interpolation of crates/common/src/template.rs does with a text.
use Prim.Native.Char.{Char, code}
use Prim.Native.String.{◌++◌}
use Prim.Native.String.append
use text.Mathlib.TextLemmas.{append_assoc}
use invokr.Base.{
  ℕ, zero, suc, ◌+◌, ◌≡◌, refl, sym, ap, ◌∙◌, String, Bool, true, false, some, arith, ◌==◌,
}
use invokr.Base.Result.{Result, ok, err, ◌>>=◌, map_ok}
use invokr.Base.Text.{
  strip_prefix, split_once, trim, count_chars, all_chars, count_chars-append, two_append,
}
use invokr.Json.{Json}
use invokr.Template.{Scope, resolve_variable, replacement, plain, variable, spot, interpolate}

-- Passing over a replaced part.
interpolate-skip :
    (m : Scope) (p s : String) → interpolate m (count_chars p) (p ++ s) ≡ interpolate m zero s
unfolding interpolate count_chars
interpolate-skip m String.[] s = ap (interpolate m zero) (append.nil s)
interpolate-skip m (String.◌∷◌ c p) s = rw (append.cons c p s) (interpolate-skip m p s)

abbrev pub not_brace : ℕ → Bool
not_brace c = elim (c == b'{') [ true ↦ false | false ↦ true ]

abbrev open_brace : Char
open_brace = "{"

abbrev close : Char
close = "}"

abbrev pub not_close : ℕ → Bool
not_close c = elim (c == b'}') [ true ↦ false | false ↦ true ]

spot-plain : (c : Char) (s : String) → not_brace (code c) ≡ true → spot (String.◌∷◌ c s) ≡ plain
unfolding spot strip_prefix
spot-plain c s h = ground arith

map_ok-nil : (r : Result String String) → r ≡ map_ok (λ t. "" ++ t) r
map_ok-nil (ok t) = ap ok (sym (append.nil t))
map_ok-nil (err e) = refl

map_ok-cons :
    (c : Char) (a : String) (r : Result String String)
    → map_ok (λ t. String.◌∷◌ c t) (map_ok (λ t. a ++ t) r) ≡ map_ok (λ t. String.◌∷◌ c a ++ t) r
map_ok-cons c a (ok t) = ap ok (sym (append.cons c a t))
map_ok-cons c a (err e) = refl

all_chars-cons :
    (p : ℕ → Bool) (c : Char) (a : String)
    → all_chars p (String.◌∷◌ c a) ≡ true
    → (p (code c) ≡ true) × (all_chars p a ≡ true)
unfolding all_chars
all_chars-cons p c a h = ground arith

interpolate-cons :
    (m : Scope) (c : Char) (s : String)
    → not_brace (code c) ≡ true
    → interpolate m zero (String.◌∷◌ c s) ≡ map_ok (λ t. String.◌∷◌ c t) (interpolate m zero s)
unfolding interpolate
interpolate-cons m c s h = rw (spot-plain c s h, interpolate)

-- A text with no opening brace is copied.
interpolate-plain :
    (m : Scope) (a s : String)
    → all_chars not_brace a ≡ true
    → interpolate m zero (a ++ s) ≡ map_ok (λ t. a ++ t) (interpolate m zero s)
interpolate-plain m String.[] s h = rw (append.nil s) (map_ok-nil (interpolate m zero s))
interpolate-plain m (String.◌∷◌ c a) s h =
    let (here, later) = all_chars-cons not_brace c a h in
    rw (append.cons c a s) (
      rw (interpolate-cons m c (a ++ s) here)
        (rw (interpolate-plain m a s later) (map_ok-cons c a (interpolate m zero s))))

-- A text with no closing brace runs up to the first `}}`.
split_once-close :
    (body b : String)
    → all_chars not_close body ≡ true
    → split_once "}}" (body ++ ("}}" ++ b)) ≡ some (body, b)
unfolding split_once strip_prefix
split_once-close String.[] b h = rw (append.nil ("}}" ++ b)) (rw (two_append close close b) refl)
split_once-close (String.◌∷◌ c body) b h =
    let (here, later) = all_chars-cons not_close c body h in
    rw (append.cons c body ("}}" ++ b)) (ground (arith, here, split_once-close body b later))

count_chars-append_four :
    (body : String) → count_chars body + 4 ≡ suc (count_chars ("{" ++ (body ++ "}}")))
unfolding count_chars
count_chars-append_four body =
    ground (arith, count_chars-append "{" (body ++ "}}"), count_chars-append body "}}")

spot-open :
    (body b : String)
    → all_chars not_close body ≡ true
    → spot (String.◌∷◌ open_brace (String.◌∷◌ open_brace (body ++ ("}}" ++ b))))
      ≡ variable (trim body) (suc (count_chars ("{" ++ (body ++ "}}"))))
unfolding spot strip_prefix
spot-open body b h =
    rw (split_once-close body b h, spot) (ap (variable (trim body)) (count_chars-append_four body))

interpolate-past :
    (m : Scope) (body b : String)
    → interpolate m
        (count_chars ("{" ++ (body ++ "}}")))
        (String.◌∷◌ open_brace (body ++ ("}}" ++ b)))
      ≡ interpolate m zero b
interpolate-past m body b =
    ap (interpolate m (count_chars ("{" ++ (body ++ "}}")))) (sym joined)
    ∙ interpolate-skip m ("{" ++ (body ++ "}}")) b
  where
    joined : ("{" ++ (body ++ "}}")) ++ b ≡ String.◌∷◌ open_brace (body ++ ("}}" ++ b))
    joined =
        append_assoc "{" (body ++ "}}") b
        ∙ append.cons open_brace "" ((body ++ "}}") ++ b)
        ∙ ap (String.◌∷◌ open_brace) (append.nil ((body ++ "}}") ++ b) ∙ append_assoc body "}}" b)

-- One `{{body}}` at the front of a text.
interpolate-open :
    (m : Scope) (body b : String)
    → all_chars not_close body ≡ true
    → interpolate m zero ("{{" ++ (body ++ ("}}" ++ b))) ≡ (
        resolve_variable (trim body) m >>= λ v.
        map_ok (λ t. replacement v ++ t) (interpolate m zero b))
unfolding interpolate
interpolate-open m body b h =
    rw (two_append open_brace open_brace (body ++ ("}}" ++ b)))
      (rw (spot-open body b h, interpolate) (rw (interpolate-past m body b) refl))

-- In a text `a{{body}}b`, with no opening brace in `a` and no closing brace in `body`, exactly the
-- braces and what they hold are replaced: by the text of the variable's value, which is not looked
-- at again, or the whole text fails with the variable's error; `b` is resolved on its own.
interpolate-variable :
    (m : Scope) (a body b : String)
    → all_chars not_brace a ≡ true
    → all_chars not_close body ≡ true
    → interpolate m zero (a ++ ("{{" ++ (body ++ ("}}" ++ b)))) ≡ (
        resolve_variable (trim body) m >>= λ v.
        map_ok (λ t. a ++ (replacement v ++ t)) (interpolate m zero b))
interpolate-variable m a body b ha hb =
    rw (interpolate-plain m a ("{{" ++ (body ++ ("}}" ++ b))) ha) (
      rw (interpolate-open m body b hb)
        (assemble a (resolve_variable (trim body) m) (interpolate m zero b)))
  where
    assemble :
        (a : String) (r : Result String Json) (rest : Result String String)
        → map_ok (λ t. a ++ t) (r >>= λ v. map_ok (λ t. replacement v ++ t) rest)
          ≡ (r >>= λ v. map_ok (λ t. a ++ (replacement v ++ t)) rest)
    assemble a (ok v) (ok t) = refl
    assemble a (ok v) (err e) = refl
    assemble a (err e) rest = refl
