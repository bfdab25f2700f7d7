-- ===== src/Common/Text/Splits.antt =====
-- `split` against `join`, and what the methods that shorten a text keep of a test.
use Prim.Native.Char.{Char, code}
use Prim.Native.String.append
use Prim.Native.String.{String, [], ◌∷◌}
use mathlib.Core.Path.{◌≡◌, refl, ap, ◌∙◌, sym}
use mathlib.Core.Bool.{Bool, false}
use mathlib.Core.Logic.{inl, inr}
use mathlib.Core.List.{List}
use native.Mathlib.Omega.{arith}
use text.Mathlib.TextEquality.{Char-path}
use agapornis_api.Common.Tests.{nat_beq, nat_beq_iff, Bool-cases}
use agapornis_api.Common.Text.{
  any_char, is_char, drop_start, drop_end, strip, replace_char, split, join, push_first,
}

-- A text that passes no test is left so by a shortening.
module _ (p : Char → Bool) where
  any_char-drop_start :
      (q : Char → Bool) (s : String) → any_char p s ≡ false → any_char p (drop_start q s) ≡ false
  unfolding drop_start any_char
  any_char-drop_start q [] h = refl
  any_char-drop_start q (c ∷ s) h = ground (arith, any_char-drop_start q s)

  any_char-drop_end :
      (q : Char → Bool) (s : String) → any_char p s ≡ false → any_char p (drop_end q s) ≡ false
  unfolding drop_end any_char
  any_char-drop_end q [] h = refl
  any_char-drop_end q (c ∷ s) h = ground (arith, any_char-drop_end q s)

  pub any_char-strip :
      (q : Char → Bool) (s : String) → any_char p s ≡ false → any_char p (strip q s) ≡ false
  unfolding strip
  any_char-strip q s h = any_char-drop_end q (drop_start q s) (any_char-drop_start q s h)

-- Every `from` is replaced.
pub any_char-replace_char :
    (from to : Char) (s : String)
    → nat_beq (code to) (code from) ≡ false
    → any_char (is_char (code from)) (replace_char from to s) ≡ false
unfolding any_char replace_char
any_char-replace_char from to [] h = refl
any_char-replace_char from to (c ∷ s) h = ground (arith, any_char-replace_char from to s h)

split-nonempty :
    (sep : Char) (s : String) → (p : String) × (ps : List String) × (split sep s ≡ (List.◌∷◌ p ps))
unfolding split
split-nonempty sep [] = ("", List.[], refl)
split-nonempty sep (c ∷ s) =
    let (p, ps, e) = split-nonempty sep s in
    elim (Bool-cases (nat_beq (code c) (code sep))) [
      | inl hit ↦ ("", split sep s, ground arith)
      | inr miss ↦ (c ∷ p, ps, ground (arith, e))
    ]

join-push_first :
    (t : String) (c : Char) (p : String) (ps : List String)
    → join t (push_first c (List.◌∷◌ p ps)) ≡ c ∷ join t (List.◌∷◌ p ps)
unfolding join
join-push_first t c p List.[] = refl
join-push_first t c p (List.◌∷◌ q ps) = append.cons c p _

join-empty :
    (sep : Char) (p : String) (ps : List String)
    → join (sep ∷ []) (List.◌∷◌ "" (List.◌∷◌ p ps)) ≡ sep ∷ join (sep ∷ []) (List.◌∷◌ p ps)
unfolding join
join-empty sep p ps =
    append.nil _ ∙ append.cons sep "" _ ∙ ap (λ (t : String). sep ∷ t) (append.nil _)

pub join-split : (sep : Char) (s : String) → join (sep ∷ []) (split sep s) ≡ s
unfolding split
join-split sep [] = unfold join in refl
join-split sep (c ∷ s) =
    let (p, ps, e) = split-nonempty sep s in
    let ih = join-split sep s in
    elim (Bool-cases (nat_beq (code c) (code sep))) [
      | inl hit ↦
          rw (hit, e)
            (join-empty sep p ps
              ∙ ap (λ (t : String). sep ∷ t) (rw e at ih)
              ∙ ap (λ (d : Char). d ∷ s)
                  (sym (Char-path c sep ((nat_beq_iff (code c) (code sep)).0 hit))))
      | inr miss ↦
          rw (miss, e) (join-push_first (sep ∷ []) c p ps ∙ ap (λ (t : String). c ∷ t) (rw e at ih))
    ]
