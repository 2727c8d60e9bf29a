-- ===== src/FrontMatter/Idempotent.antt =====
-- NormalizeBody of internal/yamlutil/frontmatter.go gives a normal form: a second call changes
-- nothing.
use mathlib.Core.List.{append_assoc}
use eval_prompt.Prelude.{
  ◌≡◌, refl, ap, ◌∙◌, Bool, true, false, not, ◌&&◌, List, [], ◌∷◌, ◌++◌, arith, if_elim, all, All,
  ◌==◌, nat_eq, list_eq, Text, is_empty,
}
use eval_prompt.Prelude.Strings.{split_on, join_with}
use eval_prompt.FrontMatter.{
  replace_crlf, replace_cr, trim_right, drop_leading, is_newline, blank_line, trim_lines,
  kept_lines, normalize_body,
}
use eval_prompt.FrontMatter.Normal.{
  inner, trim_right-trim_right, starts, starts-drop_leading, starts-trim_right, drop_leading-same,
  trim_right-append, all-split_on, replace_cr-all, replace_cr-same, Tidy, All-trim_lines,
}

-- The lines of a normal form.
abbrev Normal : List Text → Type 0
Normal ls = All Tidy ls × (starts blank_line ls ≡ true) × (trim_right blank_line ls ≡ ls)

All-trim_right : (f : Text → Bool) (ls : List Text) → All Tidy ls → All Tidy (trim_right f ls)
unfolding trim_right
All-trim_right f [] h = tt
All-trim_right f (l ∷ ls) h =
    if_elim (All Tidy) (f l && is_empty (trim_right f ls)) (λ _. tt)
      λ _. (h.0, All-trim_right f ls h.1)

All-drop_leading : (f : Text → Bool) (ls : List Text) → All Tidy ls → All Tidy (drop_leading f ls)
unfolding drop_leading
All-drop_leading f [] h = tt
All-drop_leading f (l ∷ ls) h = if_elim (All Tidy) (f l) (λ _. All-drop_leading f ls h.1) λ _. h

kept_lines-Normal : (body : Text) → Normal (kept_lines body)
unfolding kept_lines
kept_lines-Normal body =
    let s = replace_cr (replace_crlf body) in
    let ls = trim_lines (split_on 10 s) in
    let all_tidy =
      All-trim_lines (split_on 10 s) (all-split_on s (replace_cr-all (replace_crlf body))) in
    (
      All-trim_right blank_line (drop_leading blank_line ls)
          (All-drop_leading blank_line ls all_tidy),
      starts-trim_right blank_line (drop_leading blank_line ls) (starts-drop_leading blank_line ls),
      trim_right-trim_right blank_line (drop_leading blank_line ls),
    )

trim_right-keeps :
    (l t : Text)
    → trim_right is_newline t ≡ t
    → is_empty t ≡ false
    → trim_right is_newline (l ++ t) ≡ l ++ t
unfolding trim_right
trim_right-keeps [] t h e = h
trim_right-keeps (c ∷ l) t h e =
    let nonempty : is_empty (l ++ t) ≡ false = longer l in ground (arith, trim_right-keeps l t h e)
  where
    longer : (m : Text) → is_empty (m ++ t) ≡ false
    longer [] = e
    longer (d ∷ m) = refl

trim_right-inner : (l : Text) → all inner l ≡ true → trim_right is_newline l ≡ l
unfolding trim_right
trim_right-inner [] h = refl
trim_right-inner (c ∷ l) h = ground (arith, trim_right-inner l)

-- The lines but the first of lines that end in no blank line.
tail_trimmed :
    (l m : Text) (ls : List Text)
    → trim_right blank_line (l ∷ m ∷ ls) ≡ l ∷ m ∷ ls
    → trim_right blank_line (m ∷ ls) ≡ m ∷ ls
unfolding trim_right
tail_trimmed l m ls h = ground arith

newline_kept :
    (t : Text)
    → trim_right is_newline t ≡ t
    → is_empty t ≡ false
    → trim_right is_newline (10 ∷ t) ≡ 10 ∷ t
unfolding trim_right
newline_kept t h e = ground arith

join_with-trimmed :
    (l : Text) (ls : List Text)
    → All Tidy (l ∷ ls)
    → trim_right blank_line (l ∷ ls) ≡ l ∷ ls
    → (trim_right is_newline (join_with 10 (l ∷ ls)) ≡ join_with 10 (l ∷ ls))
      × (is_empty (join_with 10 (l ∷ ls)) ≡ false)
unfolding join_with
join_with-trimmed l [] h t = (trim_right-inner l h.0.0, unfold trim_right in (ground arith))
join_with-trimmed l (m ∷ ls) h t =
    let (rest, filled) = join_with-trimmed m ls h.1 (tail_trimmed l m ls t) in
    let j = join_with 10 (m ∷ ls) in
    (trim_right-keeps l (10 ∷ j) (newline_kept j rest filled) refl, longer l)
  where
    longer : (k : Text) → is_empty (k ++ (10 ∷ join_with 10 (m ∷ ls))) ≡ false
    longer [] = refl
    longer (d ∷ k) = refl

split_on-line : (l t : Text) → all inner l ≡ true → split_on 10 (l ++ (10 ∷ t)) ≡ l ∷ split_on 10 t
unfolding split_on
split_on-line [] t h = ground arith
split_on-line (c ∷ l) t h = ground (arith, split_on-line l t)

split_on-join_with :
    (l : Text) (ls : List Text)
    → All Tidy (l ∷ ls)
    → split_on 10 (join_with 10 (l ∷ ls) ++ (10 ∷ [])) ≡ (l ∷ ls) ++ ([] ∷ [])
unfolding join_with
split_on-join_with l [] h = split_on-line l [] h.0.0 ∙ unfold split_on in refl
split_on-join_with l (m ∷ ls) h =
    ap (split_on 10) (append_assoc l (10 ∷ join_with 10 (m ∷ ls)) (10 ∷ []))
    ∙ split_on-line l (join_with 10 (m ∷ ls) ++ (10 ∷ [])) h.0.0
    ∙ ap (λ k. l ∷ k) (split_on-join_with m ls h.1)

no_cr-append :
    (s t : Text)
    → all (λ c. not (c == 13)) s ≡ true
    → all (λ c. not (c == 13)) t ≡ true
    → all (λ c. not (c == 13)) (s ++ t) ≡ true
no_cr-append [] t h g = g
no_cr-append (c ∷ s) t h g = ground (arith, no_cr-append s t)

no_cr-inner : (l : Text) → all inner l ≡ true → all (λ c. not (c == 13)) l ≡ true
no_cr-inner [] h = refl
no_cr-inner (c ∷ l) h = ground (arith, no_cr-inner l)

no_cr-join_with : (ls : List Text) → All Tidy ls → all (λ c. not (c == 13)) (join_with 10 ls) ≡ true
unfolding join_with
no_cr-join_with [] h = refl
no_cr-join_with (l ∷ []) h = no_cr-inner l h.0.0
no_cr-join_with (l ∷ m ∷ ls) h =
    no_cr-append l (10 ∷ join_with 10 (m ∷ ls)) (no_cr-inner l h.0.0)
      (ground (arith, no_cr-join_with (m ∷ ls) h.1))

trim_lines-same : (ls : List Text) → All Tidy ls → trim_lines (ls ++ ([] ∷ [])) ≡ ls ++ ([] ∷ [])
unfolding trim_lines trim_right
trim_lines-same [] h = refl
trim_lines-same (l ∷ ls) h = ground (arith, trim_lines-same ls h.1, h.0.1)

kept_lines-same : (ls : List Text) → Normal ls → kept_lines (join_with 10 ls ++ (10 ∷ [])) ≡ ls
unfolding kept_lines
kept_lines-same [] h =
    unfold join_with split_on trim_lines trim_right drop_leading replace_cr replace_crlf in refl
kept_lines-same (l ∷ ls) (all_tidy, first, last) =
    let whole = join_with 10 (l ∷ ls) ++ (10 ∷ []) in
    let clean =
      replace_cr-same whole
        (no_cr-append (join_with 10 (l ∷ ls)) (10 ∷ []) (no_cr-join_with (l ∷ ls) all_tidy) refl) in
    ap (λ t. trim_right blank_line (drop_leading blank_line (trim_lines (split_on 10 t)))) clean
    ∙ ap (λ k. trim_right blank_line (drop_leading blank_line (trim_lines k)))
        (split_on-join_with l ls all_tidy)
    ∙ ap (λ k. trim_right blank_line (drop_leading blank_line k))
        (trim_lines-same (l ∷ ls) all_tidy)
    ∙ ap (trim_right blank_line) (drop_leading-same blank_line ((l ∷ ls) ++ ([] ∷ [])) first)
    ∙ trim_right-append blank_line (l ∷ ls) [] refl
    ∙ last

join_with-kept :
    (ls : List Text) → Normal ls → trim_right is_newline (join_with 10 ls) ≡ join_with 10 ls
join_with-kept [] h = unfold join_with trim_right in refl
join_with-kept (l ∷ ls) (all_tidy, first, last) = (join_with-trimmed l ls all_tidy last).0

-- NormalizeBody is idempotent: the normal form of a normal form is that form itself.
pub normalize_body-normalize_body :
    (body : Text) → normalize_body (normalize_body body) ≡ normalize_body body
unfolding normalize_body
normalize_body-normalize_body body =
    let ls = kept_lines body in
    let normal = kept_lines-Normal body in
    let form = join_with-kept ls normal in
    let again : kept_lines (trim_right is_newline (join_with 10 ls) ++ (10 ∷ [])) ≡ ls =
      rw form (kept_lines-same ls normal) in
    ap (λ k. trim_right is_newline (join_with 10 k) ++ (10 ∷ [])) again
