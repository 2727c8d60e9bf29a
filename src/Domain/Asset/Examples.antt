-- ===== src/Domain/Asset/Examples.antt =====
-- Runs of the asset of internal/domain/asset.go.
use eval_prompt.Prelude.{ℕ, ◌≡◌, refl, none, some, List, [], ◌∷◌, ◌++◌, text}
use eval_prompt.Domain.Events.{
  EventType, event_type_eq, label_promoted, eval_started, eval_completed,
}
use eval_prompt.Domain.Asset.{
  State, state_eq, Asset, state_can_transition_to, created, evaluating, evaluated, promoted,
}
use eval_prompt.Domain.Asset.Machine.{new_asset_state_machine, new_asset_state_machine_agrees}
use eval_prompt.Domain.Asset.History.{Request, run, path_to, events, run-path_to}
use eval_prompt.StateMachine.{StateMachine, can_transition}

abbrev prompt : Asset
prompt = record {
  id = record { value = text "01" };
  name = text "greeting";
  description = [];
  asset_type = [];
  tags = [];
  category = [];
  content_hash = text "h";
  file_path = text "p.md";
  repo_path = [];
  state = created;
  created_at = 0;
  updated_at = 0;
  version = 0;
}

abbrev in_state : State → Asset
in_state s = record prompt { state = s }

abbrev start_eval : Request
start_eval = record { target = evaluating; event = eval_started; now = 1 }

abbrev end_eval : Request
end_eval = record { target = evaluated; event = eval_completed; now = 2 }

abbrev skip_ahead : Request
skip_ahead = record { target = promoted; event = label_promoted; now = 3 }

new_asset_state_machine_agrees_example :
    (asm : StateMachine State EventType ℕ ℕ) × (new_asset_state_machine ℕ ℕ ≡ (some asm, none))
    × (asm.current ≡ created)
    × (asm.version ≡ 0)
    × ((s to : State) (event : EventType)
        → can_transition (record asm { current = s }) to event ≡ state_can_transition_to s to event)
new_asset_state_machine_agrees_example = new_asset_state_machine_agrees ℕ ℕ

run-path_to_example :
    (before : List EventType) × (before
        ++ path_to (run (start_eval ∷ skip_ahead ∷ end_eval ∷ []) prompt).0.state
      ≡ events (run (start_eval ∷ skip_ahead ∷ end_eval ∷ []) prompt).1)
run-path_to_example = run-path_to (start_eval ∷ skip_ahead ∷ end_eval ∷ []) prompt refl
