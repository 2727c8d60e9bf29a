-- ===== src/Domain/Asset/History.antt =====
-- The life of an asset under TransitionTo (internal/domain/asset.go): runs of requests, accepted
-- or refused.
use mathlib.Core.List.{append-nil, append_assoc}
use eval_prompt.Prelude.{
  ℕ, suc, ◌+◌, ◌≡◌, refl, ◌≢◌, ◌↔◌, ◌⊎◌, inl, inr, true, false, Option, none, some, List, [], ◌∷◌,
  ◌++◌, map, arith, length, all,
}
use eval_prompt.Domain.Errors.{Failure}
use eval_prompt.Domain.Events.{
  EventType, EventType-discrete, event_type_eq, prompt_asset_archived, label_promoted, eval_started,
  eval_completed,
}
use eval_prompt.Domain.Asset.{
  State, State-discrete, state_eq, Asset, can_promote, can_eval, can_archive,
  state_can_transition_to, can_transition_to, transition_to, created, evaluating, evaluated,
  promoted, archived, other_state,
}

pub record Request : Type 0 where
  pub target : State
  pub event : EventType
  pub now : ℕ

-- One request, and its error.
abbrev pub serve : Request → Asset → Asset × Option Failure
serve r a = transition_to r.target r.event r.now a

-- Requests in a row: the last asset, and the requests that were accepted, in order.
pub run : List Request → Asset → Asset × List Request
run [] a = (a, [])
run (r ∷ rs) a =
    let (a', accepted) = run rs (serve r a).0 in
    (a', elim ((serve r a).1) [ none ↦ r ∷ accepted | some _ ↦ accepted ])

-- A refused request changes nothing; an accepted one follows the table, sets the state and the
-- time, counts the version up by one, and keeps every other field.
pub transition_to_effect :
    (r : Request) (a : Asset)
    → (((serve r a).0 ≡ a)
        × ((serve r a).1 ≢ none)
        × (can_transition_to a r.target r.event ≡ false))
      ⊎ (((serve r a).0
            ≡ record a { state = r.target; updated_at = r.now; version = suc a.version })
          × ((serve r a).1 ≡ none)
          × (can_transition_to a r.target r.event ≡ true))
unfolding transition_to
transition_to_effect r a = ground arith

-- The version counts the accepted requests.
pub version-run_accepted :
    (rs : List Request) (a : Asset) → (run rs a).0.version ≡ a.version + length (run rs a).1
unfolding run
version-run_accepted [] a = omega arith
version-run_accepted (r ∷ rs) a =
    ground (arith, version-run_accepted rs (serve r a).0, transition_to_effect r a)

-- An archived asset stays as it is: every request is refused.
pub archived_absorbs : (rs : List Request) (a : Asset) → a.state ≡ archived → run rs a ≡ (a, [])
unfolding run transition_to can_transition_to
archived_absorbs [] a h = refl
archived_absorbs (r ∷ rs) a h = ground (arith, archived_absorbs rs a h)

-- The events that lead to a state from CREATED.
abbrev pub path_to : State → List EventType
path_to evaluating = eval_started ∷ []
path_to evaluated = eval_started ∷ eval_completed ∷ []
path_to promoted = eval_started ∷ eval_completed ∷ label_promoted ∷ []
path_to _ = []

abbrev pub events : List Request → List EventType
events rs = map (λ r. r.event) rs

-- The list ends in the given events.
abbrev pub EndsIn : List EventType → List EventType → Type 0
EndsIn es all = (before : List EventType) × (before ++ es ≡ all)

-- An edge of the table starts a new path, or makes the path to its source longer by its event.
path_step :
    (s to : State) (event : EventType)
    → state_can_transition_to s to event ≡ true
    → (path_to to ≡ []) ⊎ (path_to to ≡ path_to s ++ (event ∷ []))
unfolding state_can_transition_to
path_step created to event h = ground (
  arith,
  state_eq.beq_iff to evaluating,
  state_eq.beq_iff to archived,
  event_type_eq.beq_iff event eval_started,
)
path_step evaluating to event h = ground (
  arith,
  state_eq.beq_iff to evaluated,
  state_eq.beq_iff to created,
  event_type_eq.beq_iff event eval_completed,
)
path_step evaluated to event h = ground (
  arith,
  state_eq.beq_iff to promoted,
  state_eq.beq_iff to created,
  state_eq.beq_iff to archived,
  event_type_eq.beq_iff event label_promoted,
)
path_step promoted to event h =
    ground (arith, state_eq.beq_iff to created, state_eq.beq_iff to archived)
path_step archived to event h = cc
path_step (other_state s) to event h = cc

EndsIn-step :
    (s to : State) (event : EventType) (seen : List EventType)
    → state_can_transition_to s to event ≡ true
    → EndsIn (path_to s) seen
    → EndsIn (path_to to) (seen ++ (event ∷ []))
EndsIn-step s to event seen h (before, e) = elim (path_step s to event h) [
  | inl fresh ↦ (seen ++ (event ∷ []), rw fresh (append-nil _))
  | inr longer ↦ (before, rw longer (rw (← append_assoc, e)))
]

run_state :
    (r : Request) (rs : List Request) (a : Asset) → (run (r ∷ rs) a).0 ≡ (run rs (serve r a).0).0
unfolding run
run_state r rs a = refl

run_refused :
    (r : Request) (rs : List Request) (a : Asset)
    → (serve r a).1 ≢ none
    → (run (r ∷ rs) a).1 ≡ (run rs (serve r a).0).1
unfolding run
run_refused r rs a h = ground arith

run_accepted :
    (r : Request) (rs : List Request) (a : Asset)
    → (serve r a).1 ≡ none
    → (run (r ∷ rs) a).1 ≡ r ∷ (run rs (serve r a).0).1
unfolding run
run_accepted r rs a h = ground arith

run-EndsIn :
    (rs : List Request) (a : Asset) (seen : List EventType)
    → EndsIn (path_to a.state) seen
    → EndsIn (path_to (run rs a).0.state) (seen ++ events (run rs a).1)
run-EndsIn [] a seen h = unfold run in rw (append-nil seen) h
run-EndsIn (r ∷ rs) a seen h = elim (transition_to_effect r a) [
  | inl (same, refused, _) ↦
      rw (run_state r rs a, run_refused r rs a refused)
        (run-EndsIn rs (serve r a).0 seen (rw same h))
  | inr (moved, ok, allowed) ↦
      rw (run_state r rs a, run_accepted r rs a ok, ← append_assoc seen (r.event ∷ []) _)
        (run-EndsIn rs (serve r a).0 (seen ++ (r.event ∷ [])) (
          rw moved
            (EndsIn-step a.state r.target r.event seen (unfold can_transition_to in allowed) h)))
]

-- Whatever is requested of a new asset, the events of the accepted requests end with the path to
-- its state: one that is PROMOTED was accepted for evaluation, then as evaluated and then for
-- promotion, in this order and with nothing accepted between or after.
pub run-path_to :
    (rs : List Request) (a : Asset)
    → a.state ≡ created
    → (before : List EventType) × (before ++ path_to (run rs a).0.state ≡ events (run rs a).1)
run-path_to rs a h = run-EndsIn rs a [] (rw h ([], refl))

-- CanArchive holds exactly where TransitionTo accepts the archive request, whatever the time.
pub can_archive_iff :
    (a : Asset) (now : ℕ)
    → (can_archive a ≡ true) ↔ ((transition_to archived prompt_asset_archived now a).1 ≡ none)
unfolding can_archive transition_to State-discrete EventType-discrete
can_archive_iff a now = ground arith

-- CanEval says more than TransitionTo does: where an asset is EVALUATED, CanEval is true and every
-- request for EVALUATING is refused.
pub can_eval_overstates :
    (a : Asset) (event : EventType) (now : ℕ)
    → a.state ≡ evaluated
    → (can_eval a ≡ true) × ((transition_to evaluating event now a).1 ≢ none)
unfolding can_eval transition_to State-discrete
can_eval_overstates a event now h = ground arith

-- CanPromote says more than TransitionTo does: where an asset is PROMOTED, CanPromote is true and
-- every request for PROMOTED is refused.
pub can_promote_overstates :
    (a : Asset) (event : EventType) (now : ℕ)
    → a.state ≡ promoted
    → (can_promote a ≡ true) × ((transition_to promoted event now a).1 ≢ none)
unfolding can_promote transition_to State-discrete
can_promote_overstates a event now h = ground arith
