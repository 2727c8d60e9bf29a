-- ===== src/Domain/Paging.antt =====
-- Page and Result of internal/domain/types.go, and a walk over all pages.
use eval_prompt.Prelude.{ℕ, zero, suc, ◌<◌, ◌≡◌, Bool, ◌&&◌, List, [], ◌∷◌, arith, if◌then◌else◌}
use eval_prompt.Prelude.Int.{ℤ, ◌+ℤ◌, ◌≤ℤ◌, ltb_ℤ, leb_ℤ, +ℤ_parts, pos}

pub record Page : Type 0 where
  pub offset : ℤ
  pub limit : ℤ

unfoldable pub new_page : ℤ → ℤ → Page
new_page offset limit =
    let lower = if leb_ℤ limit (pos 0) then pos 20 else limit in
    let upper = if ltb_ℤ (pos 100) lower then pos 100 else lower in
    record { offset = offset; limit = upper }

unfoldable pub has_more : Page → ℤ → Bool
has_more p total = ltb_ℤ (p.offset +ℤ p.limit) total

unfoldable pub next : Page → Page
next p = record p { offset = p.offset +ℤ p.limit }

pub record PageResult (A : Type 0) : Type 0 where
  pub items : List A
  pub total : ℤ
  pub page : Page
  pub more : Bool

unfoldable pub new_result : {A : Type 0} → List A → ℤ → Page → PageResult A
new_result items total page = record {
  items = items;
  total = total;
  page = page;
  more = has_more page total;
}

-- A new page asks for at least one item and for at most 100, whatever limit was asked for; a
-- limit in that range is kept, a limit of 0 or less becomes 20, a greater one becomes 100, and the
-- offset is kept.
pub new_page_bounds :
    (offset limit : ℤ)
    → (pos 1 ≤ℤ (new_page offset limit).limit)
      × ((new_page offset limit).limit ≤ℤ pos 100)
      × ((new_page offset limit).offset ≡ offset)
      × ((new_page offset limit).limit ≡ (
          if leb_ℤ (pos 1) limit && leb_ℤ limit (pos 100)
          then limit
          else if leb_ℤ limit (pos 0)
          then pos 20
          else pos 100))
unfolding new_page
new_page_bounds offset limit = ground arith

-- The client's loop: a page, and the pages after it while HasMore says so.
pub pages : ℕ → Page → ℤ → List Page
pages zero p total = p ∷ []
pages (suc fuel) p total =
    let rest = pages fuel (next p) total in if has_more p total then p ∷ rest else p ∷ []

-- The item with the number `i` stands on the page.
abbrev pub OnPage : ℕ → Page → Type 0
OnPage i p = (p.offset ≤ℤ pos i) × (pos (suc i) ≤ℤ p.offset +ℤ p.limit)

abbrev pub on_page : ℕ → Page → Bool
on_page i p = leb_ℤ p.offset (pos i) && ltb_ℤ (pos i) (p.offset +ℤ p.limit)

abbrev pub times_on : ℕ → List Page → ℕ
times_on i [] = 0
times_on i (p ∷ ps) = let rest = times_on i ps in if on_page i p then suc rest else rest

before :
    (fuel : ℕ) (i : ℕ) (p : Page) (total : ℤ)
    → pos 1 ≤ℤ p.limit
    → pos (suc i) ≤ℤ p.offset
    → times_on i (pages fuel p total) ≡ 0
unfolding pages has_more next
before zero i p total l h = ground (arith, +ℤ_parts p.offset p.limit)
before (suc fuel) i p total l h = ground (
  arith,
  +ℤ_parts p.offset p.limit,
  before fuel i (record p { offset = p.offset +ℤ p.limit }) total,
)

covered :
    (fuel : ℕ) (i : ℕ) (p : Page) (total : ℕ)
    → pos 1 ≤ℤ p.limit
    → p.offset ≤ℤ pos i
    → i < total
    → pos total ≤ℤ p.offset +ℤ pos fuel
    → times_on i (pages fuel p (pos total)) ≡ 1
unfolding pages has_more next
covered zero i p total l o h f =
    ground (arith, +ℤ_parts p.offset p.limit, +ℤ_parts p.offset (pos 0))
covered (suc fuel) i p total l o h f = ground (
  arith,
  +ℤ_parts p.offset p.limit,
  +ℤ_parts p.offset (pos (suc fuel)),
  +ℤ_parts (p.offset +ℤ p.limit) (pos fuel),
  before fuel i (record p { offset = p.offset +ℤ p.limit }) (pos total),
  covered fuel i (record p { offset = p.offset +ℤ p.limit }) total,
)

-- From offset 0, following Next while HasMore holds, with as many rounds as there are items,
-- each item below the total stands on exactly one page.
pub pages_partition :
    (limit : ℤ) (total i : ℕ)
    → i < total
    → times_on i (pages total (new_page (pos 0) limit) (pos total)) ≡ 1
pages_partition limit total i h =
    let b = new_page_bounds (pos 0) limit in
    covered total i (new_page (pos 0) limit) total b.0 (rw b.2 (omega arith)) h
      (rw b.2 (omega (arith, +ℤ_parts (pos 0) (pos total))))
