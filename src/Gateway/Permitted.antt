-- ===== src/Gateway/Permitted.antt =====
-- core/crates/gateway/src/gateway.rs: what has to hold before a tool runs.
use aite.Base.{
  Bool-cases, All, find, ℕ, String, ◌≡◌, refl, ap, ◌∙◌, ◌≢◌, ◌⊎◌, inl, inr, Bool, true, false,
  Option, none, some, List, [], ◌∷◌, map, ◌==◌, eq_iff,
}
use aite.Base.Exec.{Result, err, ok}
use aite.Contracts.Evidence.{Members}
use aite.Contracts.Protocol.{ToolCallRequest, ToolContext, ToolSpec}
use aite.Gateway.Call.{
  P0ToolGateway, Printing, Resolved, Seconds, Visible, ask_policy, call, catalog, check_token,
  compare_token, dispatch, expected_of, find_tool, found_or, nonempty, prepare, resolver_answer,
  runner, spec_of, started, text_at, validated, visible, ◌>>=◌,
}
use aite.Gateway.Registry.{Inner, PolicyDecision, ToolImpl}
use aite.Gateway.Results.{Stop, failed_result, result_of}
use aite.Gateway.Schema.{validate_arguments}
use aite.Gateway.Tokens.{constant_time_eq}
use aite.Gateway.Tokens.Equality.{IsByte, constant_time_eq_iff}

bind-ok :
    {A B : Type 0} (r : Result Stop A) (f : A → Result Stop B) (b : B)
    → (r >>= f) ≡ ok b
    → (a : A) × (r ≡ ok a) × (f a ≡ ok b)
bind-ok (ok a) f b h = (a, refl, h)
bind-ok (err e) f b h = cc

some_text : (a b : String) → ◌≡◌ {A = Option String} (some a) (some b) → a ≡ b
some_text a b h = cc

ok_inj : {A : Type 0} (a b : A) → ◌≡◌ {A = Result Stop A} (ok a) (ok b) → a ≡ b
ok_inj a b h = cc

not_true : {b : Bool} → b ≡ true → ¬ (b ≡ false)
not_true h k = cc

module _ (sec : Seconds) (W : Type 0) (pr : Printing) where
  -- The token that the resolver, or else the table, has for a task.
  abbrev pub IsToken :
      Option (String → Resolved) → List (String × String) → String → String → Type 0
  IsToken none tokens task_id t = text_at sec W pr task_id tokens ≡ some t
  IsToken (some resolve) tokens task_id t = resolve task_id ≡ Resolved.found (some t)

  -- The task's token is the one that came with the call, the tool is one that the catalog offers,
  -- the policy allows the call, and its arguments are accepted.
  pub record IsPermitted (g : P0ToolGateway sec W pr) (ctx : ToolContext) (req : ToolCallRequest)
      : Type 0 where
    pub token : String
    pub is_token : IsToken g.token_resolver g.tokens ctx.task_id token
    pub no_empty_token : token ≢ ""
    pub carried : pr.as_bytes token ≡ pr.as_bytes ctx.session_token
    pub spec : ToolSpec
    pub offered : find (λ s. s.name == req.name) (catalog sec W pr g ctx) ≡ some spec
    pub allowed : g.policy ctx req ≡ ok PolicyDecision.allow
    pub arguments : Members
    pub accepted : validate_arguments pr.validating spec.parameters req.arguments ≡ ok arguments

  nonempty-some :
      (o : Option String) (t : String) → nonempty sec W pr o ≡ some t → (o ≡ some t) × (t ≢ "")
  nonempty-some none t h = cc
  nonempty-some (some u) t h = elim (Bool-cases (u == "")) [
    | inl e ↦ cc (rw e at h)
    | inr n ↦
        let same = some_text u t (rw n at h) in
        (ap (λ x. some x) same, λ e. not_true ((eq_iff u "").1 (same ∙ e)) n)
  ]

  resolver_answer-found :
      (a : Resolved) (t : Option String) → resolver_answer sec W pr a ≡ ok t → a ≡ Resolved.found t
  unfolding resolver_answer
  resolver_answer-found (Resolved.found u) t h = ap (λ x. Resolved.found x) (ok_inj u t h)
  resolver_answer-found (Resolved.failed e) t h = cc
  resolver_answer-found (Resolved.panics p) t h = cc

  expected_of-IsToken :
      (r : Option (String → Resolved)) (tokens : List (String × String)) (task_id t : String)
      → expected_of sec W pr r tokens task_id ≡ ok (some t)
      → IsToken r tokens task_id t
  unfolding expected_of
  expected_of-IsToken none tokens task_id t h = ok_inj _ _ h
  expected_of-IsToken (some resolve) tokens task_id t h =
      resolver_answer-found (resolve task_id) (some t) h

  compare_token-ok :
      (ctx : ToolContext) (o : Option String)
      → ((s : String) → All IsByte (pr.as_bytes s))
      → compare_token sec W pr ctx o ≡ ok tt
      → (t : String) × (o ≡ some t) × (pr.as_bytes t ≡ pr.as_bytes ctx.session_token)
  unfolding compare_token
  compare_token-ok ctx none bytes h = cc
  compare_token-ok ctx (some t) bytes h = elim (Bool-cases (ctx.session_token == "")) [
    | inl e ↦ cc (rw e at h)
    | inr n ↦ elim (Bool-cases (constant_time_eq (pr.as_bytes t) (pr.as_bytes ctx.session_token))) [
      | inr other ↦ cc (rw (n, other) at h)
      | inl same ↦ (
        t,
        refl,
        (constant_time_eq_iff (pr.as_bytes t) (pr.as_bytes ctx.session_token) (bytes t)
              (bytes ctx.session_token)).0
            same,
      )
    ]
  ]

  check_token-ok :
      (g : P0ToolGateway sec W pr) (ctx : ToolContext)
      → ((s : String) → All IsByte (pr.as_bytes s))
      → check_token sec W pr g ctx ≡ ok tt
      → (t : String) × IsToken g.token_resolver g.tokens ctx.task_id t
        × (t ≢ "")
        × (pr.as_bytes t ≡ pr.as_bytes ctx.session_token)
  unfolding check_token
  check_token-ok g ctx bytes h =
      let (o, e, c) = bind-ok (expected_of sec W pr g.token_resolver g.tokens ctx.task_id) _ tt h in
      let (t, n, same) = compare_token-ok ctx (nonempty sec W pr o) bytes c in
      let (is_some, filled) = nonempty-some o t n in
      (
        t,
        expected_of-IsToken g.token_resolver g.tokens ctx.task_id t (e ∙ ap (λ x. ok x) is_some),
        filled,
        same,
      )

  some_visible :
      (a b : Visible sec W pr) → ◌≡◌ {A = Option (Visible sec W pr)} (some a) (some b) → a ≡ b
  some_visible a b h = cc

  find-map :
      (f : Visible sec W pr → ToolSpec) (q : ToolSpec → Bool) (l : List (Visible sec W pr))
      (v : Visible sec W pr)
      → find (λ x. q (f x)) l ≡ some v
      → find q (map f l) ≡ some (f v)
  find-map f q [] v h = cc
  find-map f q (x ∷ l) v h = elim (Bool-cases (q (f x))) [
    | inl e ↦ rw e (ap (λ y. some (f y)) (some_visible x v (rw e at h)))
    | inr n ↦ rw n (find-map f q l v (rw n at h))
  ]

  found_or-ok :
      (g : P0ToolGateway sec W pr) (ctx : ToolContext) (req : ToolCallRequest)
      (o : Option (Visible sec W pr)) (v : Visible sec W pr)
      → found_or sec W pr g ctx req o ≡ ok v
      → o ≡ some v
  unfolding found_or
  found_or-ok g ctx req none v h = cc
  found_or-ok g ctx req (some u) v h = ap (λ x. some x) (ok_inj u v h)

  ask_policy-ok :
      (d : Result (Option String) PolicyDecision)
      → ask_policy sec W pr d ≡ ok tt
      → d ≡ ok PolicyDecision.allow
  unfolding ask_policy
  ask_policy-ok (ok PolicyDecision.allow) h = refl
  ask_policy-ok (ok (PolicyDecision.deny reason)) h = cc
  ask_policy-ok (err p) h = cc

  validated-ok :
      (r : Result String Members) (args : Members) → validated sec W pr r ≡ ok args → r ≡ ok args
  unfolding validated
  validated-ok (ok a) args h = ap (λ x. ok x) (ok_inj a args h)
  validated-ok (err e) args h = cc

  prepare-IsPermitted :
      (g : P0ToolGateway sec W pr) (ctx : ToolContext) (req : ToolCallRequest)
      (run : ToolImpl sec.Time W × Members × sec.Time)
      → ((s : String) → All IsByte (pr.as_bytes s))
      → prepare sec W pr g ctx req ≡ ok run
      → IsPermitted g ctx req
  unfolding prepare find_tool catalog
  prepare-IsPermitted g ctx req run bytes h =
      let (u, checked_token, h1) = bind-ok (check_token sec W pr g ctx) _ run h in
      let (token, is_token, filled, same) = check_token-ok g ctx bytes checked_token in
      let (tool, found_tool, h2) = bind-ok (find_tool sec W pr g ctx req) _ run h1 in
      let (impl, has_impl, h3) = bind-ok (runner sec W pr g req tool) _ run h2 in
      let (w, asked, h4) = bind-ok (ask_policy sec W pr (g.policy ctx req)) _ run h3 in
      let (args, accepted_args, h5) =
        bind-ok
          (validated sec W pr
            (validate_arguments pr.validating (spec_of sec W pr tool).parameters req.arguments))
          _ run h4 in
      record {
        token = token;
        is_token = is_token;
        no_empty_token = filled;
        carried = same;
        spec = spec_of sec W pr tool;
        offered =
            find-map (λ v. spec_of sec W pr v) (λ s. s.name == req.name) (visible sec W pr g ctx)
              tool (found_or-ok g ctx req _ tool found_tool);
        allowed = ask_policy-ok (g.policy ctx req) asked;
        arguments = args;
        accepted = validated-ok _ args accepted_args;
      }

  -- What is turned away before a tool runs neither succeeds nor changes anything.
  started-kept :
      (g : P0ToolGateway sec W pr) (ctx : ToolContext) (req : ToolCallRequest) (ms : ℕ)
      (inner : Inner W) (p : Result Stop (ToolImpl sec.Time W × Members × sec.Time))
      → ((run : ToolImpl sec.Time W × Members × sec.Time) → p ≡ ok run → IsPermitted g ctx req)
      → ((result_of req ms (started sec W pr ctx req inner p).0).is_ok ≡ true)
        ⊎ ((started sec W pr ctx req inner p).1 ≢ inner)
      → IsPermitted g ctx req
  unfolding started result_of failed_result
  started-kept g ctx req ms inner (ok run) k h = k run refl
  started-kept g ctx req ms inner (err (Stop.fails f)) k (inl h) = cc
  started-kept g ctx req ms inner (err (Stop.panic p)) k (inl h) = cc
  started-kept g ctx req ms inner (err e) k (inr h) = absurd (h refl)

  -- If a call succeeds or changes anything outside of the gateway, it is permitted: the task has a
  -- token, not empty, with the bytes of the token that came with the call, the catalog offers a
  -- tool of the request's name, the policy allowed the call, and the tool's schema accepts the
  -- arguments. The bytes of a text are below 256.
  pub call-IsPermitted :
      (g : P0ToolGateway sec W pr) (ctx : ToolContext) (req : ToolCallRequest) (ms : ℕ)
      (inner : Inner W)
      → ((s : String) → All IsByte (pr.as_bytes s))
      → ((call sec W pr g ctx req ms inner).0.is_ok ≡ true)
        ⊎ ((call sec W pr g ctx req ms inner).1 ≢ inner)
      → IsPermitted g ctx req
  unfolding call dispatch
  call-IsPermitted g ctx req ms inner bytes h =
      started-kept g ctx req ms inner (prepare sec W pr g ctx req)
        (λ run e. prepare-IsPermitted g ctx req run bytes e) h
