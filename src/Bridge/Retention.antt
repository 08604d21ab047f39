-- ===== src/Bridge/Retention.antt =====
-- The secrets that the state keeps: plan bodies, and the tokens of grants.
use af_companion.Prelude.{List, [], ◌∷◌, All, refl, inl, inr, Bool-cases}
use af_companion.Prelude.Evolution.{All-Evolves}
use af_companion.Bridge.State.{State, Bridge}
use af_companion.Bridge.Platform.{Config, Env}
use af_companion.Bridge.Mutate.{mutate, commit, trim_state}
use af_companion.Bridge.Sessions.{reset_body, reset_state}
use af_companion.Bridge.Actions.{Action, is_reset, step, run}
use af_companion.Bridge.Actions
use af_companion.Bridge.Moves.{
  HandoffMove, GrantMove, IsHandoffClean, IsGrantClean, Moves, IsHandoffClean-HandoffMove,
  IsGrantClean-GrantMove,
}
use af_companion.Bridge.Settled.{step-Moves}

-- Every handoff and every grant that is neither ready nor waiting has lost its plan body, and the
-- grant its token.
abbrev pub AreClean : State → Type 0
AreClean s = All IsHandoffClean s.handoffs × All IsGrantClean s.materialization_grants

AreClean-Moves : (s t : State) → AreClean s → Moves s t → AreClean t
AreClean-Moves s t (h, g) m = (
  All-Evolves HandoffMove IsHandoffClean IsHandoffClean-HandoffMove s.handoffs t.handoffs h m.3,
  All-Evolves GrantMove IsGrantClean IsGrantClean-GrantMove s.materialization_grants
      t.materialization_grants g m.4,
)

reset_state-AreClean :
    (env : Env) (config : Config) (b : Bridge)
    → AreClean b.state
    → AreClean (reset_state env config b).1.state
unfolding reset_state reset_body mutate commit trim_state
reset_state-AreClean env config b clean = elim (Bool-cases env.written) [
  | inl w ↦ rw w (tt, tt)
  | inr w ↦ rw w clean
]

step-AreClean :
    (config : Config) (env : Env) (action : Action) (b : Bridge)
    → AreClean b.state
    → AreClean (step config env action b).state
unfolding step
step-AreClean config env Actions.reset b clean = reset_state-AreClean env config b clean
step-AreClean config env action b clean =
    let next = step config env action b in
    AreClean-Moves b.state next.state clean (step-Moves config env action b refl)

-- Where every handoff and grant that is neither ready nor waiting holds no plan body, and such a
-- grant no token, the same is true after any actions.
pub run-AreClean :
    (config : Config) (actions : List (Env × Action)) (b : Bridge)
    → AreClean b.state
    → AreClean (run config actions b).state
unfolding run
run-AreClean config [] b clean = clean
run-AreClean config ((env, action) ∷ rest) b clean =
    run-AreClean config rest (step config env action b) (step-AreClean config env action b clean)
