-- ===== src/Modules/Dispatch/Batches.antt =====
-- A batch is its requests, dispatched one after the other.
use pds_core.Base.{
  ◌≡◌, refl, sym, ap, ◌∙◌, ◌⊎◌, inl, inr, Bool, false, Bool-cases, List, [], ◌∷◌, ◌++◌, map, ok,
  err, Outcome,
}
use pds_core.Routing.{RouteLocator}
use pds_core.Modules.{RouteResolution, RegistryError, ModuleRegistry}
use pds_core.Modules.Dispatch.{
  bad_request, bad_page, unsupported_module, no_core_contract, no_qr_schema, other_module,
  no_registration_schema, not_dispatchable, validation_failed, validator_returned, handling_failed,
  unresolved, escaped, Uncaught, of_storage, RouteDispatchRequest, Dispatched, RouteDispatchSuccess,
  RouteDispatchOutcome, success, failure, dispatch_route, outcome_of, append_outcome,
  dispatch_routes,
}
use pds_core.Modules.Dispatch.Admitted.{dispatch_route-IsAdmitted}
use pds_core.Modules.Dispatch.Escapes.{dispatch_route-ne-escaped}

module _ (W S R X P : Type 0) (caught : P → Bool)
    (resolve : RouteLocator → W → Outcome P RouteResolution)
    (registry : ModuleRegistry W S R X) where
  abbrev pub request_of : RouteDispatchOutcome W S R X P → RouteDispatchRequest S
  request_of (success s) = s.request
  request_of (failure q e) = q

  abbrev pub one : RouteDispatchRequest S → W → Dispatched P X (RouteDispatchSuccess W S R X) × W
  one = dispatch_route W S R X P resolve registry

  abbrev pub batch :
      List (RouteDispatchRequest S)
      → W
      → Outcome (Uncaught P) (List (RouteDispatchOutcome W S R X P)) × W
  batch = dispatch_routes W S R X P caught resolve registry

  -- The requests have one outcome each, in their order.
  abbrev pub Completes : List (RouteDispatchRequest S) → W → Type 0
  Completes qs w =
      (os : List (RouteDispatchOutcome W S R X P)) × ((batch qs w).0 ≡ ok os)
      × (map request_of os ≡ qs)

  -- The batch stops at the first request whose stored registration raises what is not caught: the
  -- requests before it are dispatched, those after it are not.
  pub record Stops (qs : List (RouteDispatchRequest S)) (w : W) : Type 0 where
    pub before : List (RouteDispatchRequest S)
    pub page : RouteDispatchRequest S
    pub after : List (RouteDispatchRequest S)
    pub error : P
    pub split : qs ≡ before ++ page ∷ after
    pub completed : Completes before w
    pub raised : (one page (batch before w).1).0 ≡ err (unresolved error)
    pub uncaught : caught error ≡ false
    pub ended : batch qs w ≡ (err (of_storage error), (one page (batch before w).1).1)

  -- A dispatch has an outcome for its request, or its stored registration raised what is not caught.
  abbrev Decided : RouteDispatchRequest S → Dispatched P X (RouteDispatchSuccess W S R X) → Type 0
  Decided q r =
      ((o : RouteDispatchOutcome W S R X P) × (outcome_of W S R X P caught q r ≡ ok o)
        × (request_of o ≡ q))
      ⊎ ((x : P) × (r ≡ err (unresolved x))
          × (caught x ≡ false)
          × (outcome_of W S R X P caught q r ≡ err (of_storage x)))

  outcome_of-Decided :
      (q : RouteDispatchRequest S) (r : Dispatched P X (RouteDispatchSuccess W S R X))
      → ((e : RegistryError)
          → ¬ (Path (Dispatched P X (RouteDispatchSuccess W S R X)) r (err (escaped e))))
      → ((s : RouteDispatchSuccess W S R X) → r ≡ ok s → s.request ≡ q)
      → Decided q r
  unfolding outcome_of
  outcome_of-Decided q (ok s) c h = inl (success s, refl, h s refl)
  outcome_of-Decided q (err (escaped e)) c h = absurd (c e refl)
  outcome_of-Decided q (err (bad_request x)) c h = inl (failure q (bad_request x), refl, refl)
  outcome_of-Decided q (err bad_page) c h = inl (failure q bad_page, refl, refl)
  outcome_of-Decided q (err unsupported_module) c h = inl (failure q unsupported_module, refl, refl)
  outcome_of-Decided q (err no_core_contract) c h = inl (failure q no_core_contract, refl, refl)
  outcome_of-Decided q (err no_qr_schema) c h = inl (failure q no_qr_schema, refl, refl)
  outcome_of-Decided q (err other_module) c h = inl (failure q other_module, refl, refl)
  outcome_of-Decided q (err no_registration_schema) c h =
      inl (failure q no_registration_schema, refl, refl)
  outcome_of-Decided q (err not_dispatchable) c h = inl (failure q not_dispatchable, refl, refl)
  outcome_of-Decided q (err (validation_failed x)) c h =
      inl (failure q (validation_failed x), refl, refl)
  outcome_of-Decided q (err validator_returned) c h = inl (failure q validator_returned, refl, refl)
  outcome_of-Decided q (err (handling_failed x)) c h =
      inl (failure q (handling_failed x), refl, refl)
  outcome_of-Decided q (err (unresolved x)) c h = elim (Bool-cases (caught x)) [
    | inl e ↦ inl (failure q (unresolved x), rw e refl, refl)
    | inr e ↦ inr (x, refl, e, rw e refl)
  ]

  append_outcome-ok :
      (m : Outcome (Uncaught P) (RouteDispatchOutcome W S R X P)) (v : W)
      (r : Outcome (Uncaught P) (List (RouteDispatchOutcome W S R X P)) × W)
      {o : RouteDispatchOutcome W S R X P} {os : List (RouteDispatchOutcome W S R X P)}
      → m ≡ ok o
      → r.0 ≡ ok os
      → append_outcome W S R X P m v r ≡ (ok (o ∷ os), r.1)
  unfolding append_outcome
  append_outcome-ok m v (r, u) h k = rw (h, k) refl

  append_outcome-err :
      (m : Outcome (Uncaught P) (RouteDispatchOutcome W S R X P)) (v u : W) (x : Uncaught P)
      (r : Outcome (Uncaught P) (List (RouteDispatchOutcome W S R X P)) × W)
      {o : RouteDispatchOutcome W S R X P}
      → m ≡ ok o
      → r ≡ (err x, u)
      → append_outcome W S R X P m v r ≡ (err x, u)
  unfolding append_outcome
  append_outcome-err m v u x r h k = rw (h, k) refl

  -- What follows a request that has an outcome.
  Stops-after :
      (q : RouteDispatchRequest S) (qs : List (RouteDispatchRequest S)) (w : W)
      (o : RouteDispatchOutcome W S R X P)
      → outcome_of W S R X P caught q (one q w).0 ≡ ok o
      → request_of o ≡ q
      → Stops qs (one q w).1
      → Stops (q ∷ qs) w
  unfolding dispatch_routes
  Stops-after q qs w o first named s =
      let (os, others, rest) = s.completed in
      let here = append_outcome-ok _ (one q w).1 (batch s.before (one q w).1) first others in
      let state : (batch (q ∷ s.before) w).1 ≡ (batch s.before (one q w).1).1 =
        ap (λ r. r.1) here in
      record {
        before = q ∷ s.before;
        page = s.page;
        after = s.after;
        error = s.error;
        split = ap (λ l. q ∷ l) s.split;
        completed = (o ∷ os, ap (λ r. r.0) here, λ i. named i ∷ rest i);
        raised = ap (λ v. (one s.page v).0) state ∙ s.raised;
        uncaught = s.uncaught;
        ended =
            append_outcome-err _ (one q w).1 _ (of_storage s.error) (batch qs (one q w).1) first
              s.ended
            ∙ (λ i. (err (of_storage s.error), (one s.page (sym state i)).1));
      }

  -- A batch returns one outcome for each request, in their order, or it stops at a request whose stored
  -- registration raised an exception that is not caught: the requests before it have their outcomes, in
  -- their order, and the state is the one that its dispatch leaves. Nothing else that is wrong with a
  -- page or its module stops a batch.
  pub dispatch_routes_ends :
      (qs : List (RouteDispatchRequest S)) (w : W) → Completes qs w ⊎ Stops qs w
  unfolding dispatch_routes append_outcome
  dispatch_routes_ends [] w = inl ([], refl, refl)
  dispatch_routes_ends (q ∷ qs) w =
      elim (outcome_of-Decided q (one q w).0
        (dispatch_route-ne-escaped W S R X P resolve registry q w)
        (λ s e. (dispatch_route-IsAdmitted W S R X P resolve registry q w s e).0)) [
          | inl (o, first, named) ↦ elim (dispatch_routes_ends qs (one q w).1) [
            | inl (os, others, rest) ↦ inl (
              o ∷ os,
              ap (λ x. x.0) (append_outcome-ok _ _ (batch qs (one q w).1) first others),
              λ i. named i ∷ rest i,
            )
            | inr s ↦ inr (Stops-after q qs w o first named s)
          ]
          | inr (x, raised, uncaught, stopped) ↦ inr (record {
            before = [];
            page = q;
            after = qs;
            error = x;
            split = refl;
            completed = ([], refl, refl);
            raised = raised;
            uncaught = uncaught;
            ended = ap (λ m. append_outcome W S R X P m (one q w).1 (batch qs (one q w).1)) stopped;
          })
        ]
