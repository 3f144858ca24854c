-- ===== src/Config/Csv.antt =====
-- The comma-separated lists of internal/config/config.go.
use Prim.Native.Char.{Char, char, code}
use Prim.Native.String.append
use Prim.Native.String.{[], ◌∷◌}
use text.Mathlib.TextLemmas.{append-nil, append_assoc}
use mathlib.Core.List.{append-nil as List-append-nil, append_assoc as List-append_assoc}
use nexus_dispatch.Prelude.{
  ◌≡◌, ◌≢◌, refl, sym, ap, ◌∙◌, false, List, [], ◌∷◌, ◌++◌, All, All-append, String, ◌==◌, ==-refl,
  ==-ne, ◌<>◌, eqb, arith, Bool-cases, inl, inr,
}
use nexus_dispatch.Config.{keep_full, split_csv_from, split_csv}

-- No character of the text is a comma.
abbrev pub IsPlain : String → Type 0
IsPlain [] = Unit
IsPlain (r ∷ s) = (eqb (code r) b',' ≡ false) × IsPlain s

-- An item of a list: some text without a comma.
abbrev pub IsItem : String → Type 0
IsItem s = (s ≢ "") × IsPlain s

-- `strings.Join` with a comma.
abbrev pub joined : List String → String
joined [] = ""
joined (x ∷ []) = x
joined (x ∷ y ∷ xs) = x <> "," <> joined (y ∷ xs)

abbrev comma : Char
comma = char b',' tt

abbrev push : String → Char → String
push cur r = cur <> r ∷ ""

push-append : (cur : String) (r : Char) (s : String) → push cur r <> s ≡ cur <> r ∷ s
push-append cur r s =
    append_assoc cur (r ∷ "") s
    ∙ ap (λ t. cur <> t) (append.cons r "" s ∙ ap (λ t. r ∷ t) (append.nil s))

IsPlain-push :
    (cur : String) (r : Char) → IsPlain cur → eqb (code r) b',' ≡ false → IsPlain (push cur r)
IsPlain-push [] r h e = rw (append.nil (r ∷ "")) (e, tt)
IsPlain-push (x ∷ cur) r (p, h) e = rw (append.cons x cur (r ∷ "")) (p, IsPlain-push cur r h e)

not_empty : (cur : String) → (cur == "") ≡ false → cur ≢ ""
not_empty cur e = λ q. ground arith

keep-items :
    (cur : String) (out : List String)
    → IsPlain cur
    → All IsItem out
    → All IsItem (keep_full cur out)
keep-items cur out p h = elim (Bool-cases (cur == "")) [
  | inl e ↦ rw e h
  | inr e ↦ rw e (All-append IsItem out (cur ∷ []) h ((not_empty cur e, p), tt))
]

split_csv_from-items :
    (out : List String) (cur s : String)
    → All IsItem out
    → IsPlain cur
    → All IsItem (split_csv_from out cur s)
unfolding split_csv_from
split_csv_from-items out cur [] h p = keep-items cur out p h
split_csv_from-items out cur (r ∷ s) h p = elim (Bool-cases (eqb (code r) b',')) [
  | inl e ↦ rw e (split_csv_from-items (keep_full cur out) "" s (keep-items cur out p h) tt)
  | inr e ↦ rw e (split_csv_from-items out (push cur r) s h (IsPlain-push cur r p e))
]

-- Every item that is split off is some text without a comma.
pub split_csv-items : (s : String) → All IsItem (split_csv s)
unfolding split_csv
split_csv-items s = split_csv_from-items [] "" s tt tt

-- The loop reads a text without a comma to its end.
split_csv_from-plain :
    (out : List String) (cur x t : String)
    → IsPlain x
    → split_csv_from out cur (x <> t) ≡ split_csv_from out (cur <> x) t
unfolding split_csv_from
split_csv_from-plain out cur [] t h = rw (append.nil t, append-nil cur) refl
split_csv_from-plain out cur (r ∷ x) t (p, h) =
    ap (split_csv_from out cur) (append.cons r x t)
    ∙ ground (arith, split_csv_from-plain out (push cur r) x t h, push-append cur r x)

keep_full-item : (x : String) (out : List String) → x ≢ "" → keep_full x out ≡ out ++ x ∷ []
keep_full-item x out n = rw (==-ne x "" n) refl

split_csv_from-comma :
    (out : List String) (cur t : String)
    → split_csv_from out cur ("," <> t) ≡ split_csv_from (keep_full cur out) "" t
unfolding split_csv_from
split_csv_from-comma out cur t =
    ap (split_csv_from out cur) (append.cons (comma) "" t ∙ ap (λ u. (comma) ∷ u) (append.nil t))

split_csv_from-joined :
    (out xs : List String) → All IsItem xs → split_csv_from out "" (joined xs) ≡ out ++ xs
unfolding split_csv_from
split_csv_from-joined out [] h = rw (==-refl "") (sym (List-append-nil out))
split_csv_from-joined out (x ∷ []) ((n, p), h) =
    ap (split_csv_from out "") (sym (append-nil x))
    ∙ split_csv_from-plain out "" x "" p
    ∙ ap (λ c. keep_full c out) (append.nil x)
    ∙ keep_full-item x out n
split_csv_from-joined out (x ∷ y ∷ xs) ((n, p), h) =
    split_csv_from-plain out "" x ("," <> joined (y ∷ xs)) p
    ∙ split_csv_from-comma out ("" <> x) (joined (y ∷ xs))
    ∙ ap (λ o. split_csv_from o "" (joined (y ∷ xs)))
        (ap (λ c. keep_full c out) (append.nil x) ∙ keep_full-item x out n)
    ∙ split_csv_from-joined (out ++ x ∷ []) (y ∷ xs) h
    ∙ List-append_assoc out (x ∷ []) (y ∷ xs)

-- Items that are not empty and hold no comma, joined by commas, are split into the same items.
pub split_csv-joined : (xs : List String) → All IsItem xs → split_csv (joined xs) ≡ xs
unfolding split_csv
split_csv-joined xs h = split_csv_from-joined [] xs h
