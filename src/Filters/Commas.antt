-- ===== src/Filters/Commas.antt =====
-- That a filter may be repeated or hold several values (crates/api/src/extractors.rs).
use Prim.Native.Char.{code}
use Prim.Native.String.{◌++◌}
use Prim.Native.String.append
use mathlib.Core.Path.{fun_ext}
use invokr.Base.{
  ◌≡◌, refl, sym, ap, ◌∙◌, inl, inr, String, Bool, Option, List, [], ◌∷◌, ◌++◌ as append,
  Bool-cases, eq_refl, str_eq, ◌==◌, if◌then◌else◌,
}
use invokr.Base.Result.{Result, ok, err, ◌>>=◌}
use invokr.Base.Text.{trim}
use invokr.Filters.{split_from, split_commas, add_token, add_tokens, add_pairs, parse_filter_list}

bind_assoc :
    {E A B C : Type 0} (r : Result E A) (f : A → Result E B) (g : B → Result E C)
    → (r >>= f >>= g) ≡ (r >>= (λ a. f a >>= g))
bind_assoc (ok a) f g = refl
bind_assoc (err e) f g = refl

split_from-join :
    (a b : String)
    → split_from (a ++ ("," ++ b)) ≡ ((split_from a).0, append (split_from a).1 (split_commas b))
unfolding split_from
split_from-join String.[] b =
    ap split_from
      (append.nil ("," ++ b) ∙ append.cons "," "" b ∙ ap (String.◌∷◌ ",") (append.nil b))
split_from-join (String.◌∷◌ c a) b = elim (Bool-cases (code c == 44)) [
  | inl comma ↦ ap split_from (append.cons c a ("," ++ b)) ∙ rw (comma, split_from-join a b) refl
  | inr other ↦ ap split_from (append.cons c a ("," ++ b)) ∙ rw (other, split_from-join a b) refl
]

split_commas-join :
    (a b : String) → split_commas (a ++ ("," ++ b)) ≡ append (split_commas a) (split_commas b)
split_commas-join a b = rw (split_from-join a b) refl

module _ {T : Type 0} (same : T → T → Bool) (parse : String → Option T) (label : String) where
  add_tokens-append :
      (xs ys : List String) (out : List T)
      → add_tokens same parse label (append xs ys) out
        ≡ (add_tokens same parse label xs out >>= add_tokens same parse label ys)
  unfolding add_tokens
  add_tokens-append [] ys out = refl
  add_tokens-append (x ∷ xs) ys out =
      ap (λ f. add_token same parse label out (trim x) >>= f) (fun_ext (add_tokens-append xs ys))
      ∙ sym (
          bind_assoc (add_token same parse label out (trim x)) (add_tokens same parse label xs)
            (add_tokens same parse label ys))

  add_pairs-joined :
      (key a b : String) (before after : List (String × String)) (out : List T)
      → add_pairs same parse label key (append before ((key, a ++ ("," ++ b)) ∷ after)) out
        ≡ add_pairs same parse label key (append before ((key, a) ∷ (key, b) ∷ after)) out
  unfolding add_pairs
  add_pairs-joined key a b [] after out =
      rw
        (
          eq_refl key,
          split_commas-join a b,
          add_tokens-append (split_commas a) (split_commas b) out,
        )
        (bind_assoc (add_tokens same parse label (split_commas a) out)
          (add_tokens same parse label (split_commas b)) (add_pairs same parse label key after))
  add_pairs-joined key a b (pair ∷ before) after out =
      ap
        (λ f.
          (if str_eq pair.0 key
            then add_tokens same parse label (split_commas pair.1) out
            else ok out)
          >>= f)
        (fun_ext (add_pairs-joined key a b before after))

  -- A value with a comma is as good as two values of the key, wherever it stands in the query.
  pub parse_filter_list-joined :
      (key a b : String) (before after : List (String × String))
      → parse_filter_list same parse label (append before ((key, a ++ ("," ++ b)) ∷ after)) key
        ≡ parse_filter_list same parse label (append before ((key, a) ∷ (key, b) ∷ after)) key
  parse_filter_list-joined key a b before after = add_pairs-joined key a b before after []
