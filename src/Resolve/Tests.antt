-- ===== src/Resolve/Tests.antt =====
-- Runs of src/resolve/resolver.py and src/resolve/evaluator.py on a log of one grant and its revocation.
use mathlib.Core.List.Permᴰ.{swap}
use hodi.Prelude.{
  ◌≡◌, ◌≢◌, ◌↔◌, refl, true, false, none, some, List, [], ◌∷◌, In, here, there, ok, ◌<◌, arith, sym,
  ap, ◌∙◌, eq_iff, ◌==◌, string_eq,
}
use hodi.Schema.Vocabulary.{
  training, rag_retrieval, human_reference, all_models, open_weights, granted, revoked,
  EventKind-discrete, UseType-discrete, ModelClass-discrete,
}
use hodi.Schema.Scope.{Scope, ScopeEvaluationResult}
use hodi.Schema.GrantEvent.{GrantEvent}
use hodi.Resolve.Resolver.{resolve, active_grant_events}
use hodi.Resolve.Resolver.Fold.{status_of, scope_of}
use hodi.Resolve.Resolver.Active.{IsInForce, active_grant_events_correct}
use hodi.Resolve.Resolver.Replay.{
  HasUniqueIds, IsLatest, resolve-append_latest, resolve-shuffle, resolve-past,
}
use hodi.Resolve.Evaluator.{
  permits, is_containing, is_scope_current, is_window_contained, is_territory_contained,
}
use hodi.Schema.Lattice.{is_use_type_contained, is_model_class_contained}
use hodi.Resolve.Evaluator.Containment.{Holds, is_containing_iff}
use hodi.Resolve.Evaluator.Permission.{AllGranted, IsHeld, permits-iff-IsHeld, permits_narrower}

abbrev licensed : Scope
licensed = record {
  use_type = training;
  model_class = all_models;
  commercial = true;
  attribution_required = true;
  territory = [];
  valid_from = 10;
  valid_until = none;
}

abbrev asked : Scope
asked = record {
  use_type = rag_retrieval;
  model_class = open_weights;
  commercial = false;
  attribution_required = false;
  territory = "US" ∷ [];
  valid_from = 12;
  valid_until = some 15;
}

abbrev asked_less : Scope
asked_less = record asked { use_type = human_reference }

abbrev issue : GrantEvent
issue = record {
  event_id = "e1";
  grant_id = "g1";
  work_id = "w1";
  counterparty_id = "c1";
  scope = licensed;
  kind = granted;
  supersedes = none;
  issued_at = 10;
  signature = "";
}

abbrev end : GrantEvent
end = record issue { event_id = "e2"; kind = revoked; issued_at = 20 }

only_issue : {x : GrantEvent} → In x (issue ∷ []) → x ≡ issue
only_issue (here e) = e
only_issue (there m) = elim m [ ]

issue-AllGranted : AllGranted (issue ∷ [])
issue-AllGranted g m = let e = only_issue m in rw e refl

issue-IsLatest : IsLatest end (issue ∷ [])
issue-IsLatest x m e = let q = only_issue m in rw q refl

issue-ne-end : {x y : GrantEvent} → x ≡ issue → y ≡ end → x.event_id ≢ y.event_id
issue-ne-end p q e =
    let k : (issue.event_id == end.event_id) ≡ true =
      (eq_iff "e1" "e2").1
        (ap (λ (u : GrantEvent). u.event_id) (sym p) ∙ e ∙ ap (λ (u : GrantEvent). u.event_id) q) in
    absurd (cc)

log-HasUniqueIds : HasUniqueIds (issue ∷ end ∷ [])
log-HasUniqueIds x y (here p) (here q) e = cc
log-HasUniqueIds x y (here p) (there (here q)) e = absurd (issue-ne-end p q e)
log-HasUniqueIds x y (there (here p)) (here q) e = absurd (issue-ne-end q p (sym e))
log-HasUniqueIds x y (there (here p)) (there (here q)) e = cc
log-HasUniqueIds x y (there (there m)) n e = elim m [ ]
log-HasUniqueIds x y (here p) (there (there n)) e = elim n [ ]
log-HasUniqueIds x y (there (here p)) (there (there n)) e = elim n [ ]

end-later : (ev : GrantEvent) → In ev (end ∷ []) → 15 < ev.issued_at
end-later ev (here e) = rw e (omega arith)
end-later ev (there m) = elim m [ ]

abbrev answer : ScopeEvaluationResult
answer = record { permitted = true; matching_grant_id = some "g1"; attribution_required = true }

asked-permitted : permits (issue ∷ []) asked 12 ≡ ok answer
unfolding permits EventKind-discrete UseType-discrete ModelClass-discrete
asked-permitted = refl

permits-iff-IsHeld_example :
    (res : ScopeEvaluationResult) × (permits (issue ∷ []) asked 12 ≡ ok res)
    × ((res.permitted ≡ true) ↔ IsHeld (issue ∷ []) asked 12)
permits-iff-IsHeld_example = permits-iff-IsHeld (issue ∷ []) asked 12 issue-AllGranted

less-Holds : Holds asked asked_less
unfolding is_containing is_scope_current is_window_contained is_use_type_contained
    is_model_class_contained is_territory_contained UseType-discrete ModelClass-discrete
less-Holds = ((is_containing_iff asked asked_less 12).0 refl).1

permits_narrower_example :
    (res : ScopeEvaluationResult) × (permits (issue ∷ []) asked_less 12 ≡ ok res)
    × (res.permitted ≡ true)
permits_narrower_example =
    permits_narrower (issue ∷ []) asked asked_less 12 answer asked-permitted refl less-Holds

active_grant_events_correct_example :
    (found : List GrantEvent) × (active_grant_events (issue ∷ end ∷ []) (some 15) ≡ some found)
    × ((x : GrantEvent) → In x found ↔ IsInForce x (some 15) (issue ∷ end ∷ []))
active_grant_events_correct_example = active_grant_events_correct (issue ∷ end ∷ []) (some 15)

resolve-append_latest_example :
    ((resolve "g1" (some 30) (issue ∷ end ∷ [])).status ≡ status_of revoked)
    × ((resolve "g1" (some 30) (issue ∷ end ∷ [])).active_scope ≡ scope_of revoked licensed)
resolve-append_latest_example = resolve-append_latest (some 30) (issue ∷ []) end refl issue-IsLatest

resolve-shuffle_example :
    resolve "g1" (some 30) (issue ∷ end ∷ []) ≡ resolve "g1" (some 30) (end ∷ issue ∷ [])
resolve-shuffle_example =
    resolve-shuffle "g1" (some 30) (issue ∷ end ∷ []) (end ∷ issue ∷ []) (swap refl refl)
      log-HasUniqueIds

resolve-past_example :
    resolve "g1" (some 15) (issue ∷ end ∷ []) ≡ resolve "g1" (some 15) (issue ∷ [])
resolve-past_example = resolve-past "g1" 15 (issue ∷ []) (end ∷ []) end-later
