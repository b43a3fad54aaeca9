-- ===== src/Service/Guards.antt =====
-- src/abmind-service.ts: whom the service lets through to a handler.
use abmind.Prelude.{
  ◌≡◌, refl, String, Bool, true, false, ◌||◌, not, Option, none, some, arith, ◌⊎◌, inl, inr,
  if◌then◌else◌, Bool-cases, Option-cases, is_none, ◌==◌,
}
use abmind.Protocol.{
  Entry, Envelope, Parsed, refused, parsed, parse_envelope, find_method, is_mutate,
  protocol_version, unavailable, validation_error,
}
use abmind.Service.{
  Service, Env, Context, Request, Response, Body, failed, reply, refusal, handle, handle_parsed,
  authorize, resolve_user_id, has_domain, allows, has_capability, is_private,
}

-- What holds of a request that a handler may see: the service is open, the method is known, its domain
-- and its capability are granted and the method is not left out, and the user of a private call is one
-- that the caller may speak for.
pub record Allowed (c : Context) (r : Request) (s : Service) : Type 0 where
  pub entry : Entry
  pub is_open : s.closed ≡ false
  pub known : find_method r.envelope.method ≡ some entry
  pub domain : has_domain entry.domain c.granted_domains ≡ true
  pub listed : allows c.allowed_methods entry.name ≡ true
  pub capable : has_capability entry.capability c.capabilities ≡ true
  pub user : not (is_private entry.domain) || resolve_user_id c r.claim ≡ true
  pub well_formed : r.payload_error ≡ false
  pub keyed : not (is_mutate entry.mutation) || not (is_none r.envelope.idempotency_key) ≡ true

parsed-known :
    (r : Envelope) (e : Entry) → parse_envelope r ≡ parsed e → find_method r.method ≡ some e
unfolding parse_envelope
parsed-known r e h = elim (Bool-cases (r.version == protocol_version)) [
  | inr f ↦ absurd (ground (arith, f, h))
  | inl f ↦ elim (Option-cases (find_method r.method)) [
    | inl g ↦ absurd (ground (arith, f, g, h))
    | inr (x, g) ↦ ground (arith, f, g, h)
  ]
]

-- What the guards of `handleParsed` have made sure of.
refusal-none :
    (e : Entry) (c : Context) (r : Request)
    → refusal e c r ≡ none
    → (has_domain e.domain c.granted_domains ≡ true)
      × (allows c.allowed_methods e.name ≡ true)
      × (has_capability e.capability c.capabilities ≡ true)
      × (not (is_private e.domain) || resolve_user_id c r.claim ≡ true)
      × (r.payload_error ≡ false)
unfolding refusal authorize
refusal-none e c r h =
    (ground (arith, h), ground (arith, h), ground (arith, h), ground (arith, h), ground (arith, h))

-- What comes of a request: a reply and no more, or something that is allowed.
abbrev pub Outcome : Context → Request → Service → Service → Type 0
Outcome c r s s' = ((b : Body) × (s' ≡ reply r.envelope.request_id b s)) ⊎ Allowed c r s

Outcome-if :
    (c : Context) (r : Request) (s : Service) (b : Bool) (x y : Service)
    → Outcome c r s x
    → (b ≡ false → Outcome c r s y)
    → Outcome c r s (if b then x else y)
Outcome-if c r s true x y f g = f
Outcome-if c r s false x y f g = g refl

module _ (stringify : Response → String) (parse : Option String → Body) where
  handle_parsed-Allowed :
      (env : Env) (c : Context) (r : Request) (e : Entry) (s : Service)
      → s.closed ≡ false
      → find_method r.envelope.method ≡ some e
      → Outcome c r s (handle_parsed stringify parse env c r e s)
  unfolding handle_parsed
  handle_parsed-Allowed env c r e s o k = elim (Option-cases (refusal e c r)) [
    | inr (code, f) ↦ simp (f, handle_parsed) (inl (failed code, refl))
    | inl f ↦
        let (d, l, p, u, w) = refusal-none e c r f in
        let allowed : not (is_mutate e.mutation) || not (is_none r.envelope.idempotency_key) ≡ true
            → Allowed c r s =
          λ y. record {
            entry = e;
            is_open = o;
            known = k;
            domain = d;
            listed = l;
            capable = p;
            user = u;
            well_formed = w;
            keyed = y;
          } in
        elim (Bool-cases (is_mutate e.mutation)) [
          | inr g ↦ inr (allowed (rw g refl))
          | inl g ↦ elim (Option-cases r.envelope.idempotency_key) [
            | inl h ↦ simp (f, g, h, handle_parsed) (inl (failed validation_error, refl))
            | inr (x, h) ↦ inr (allowed (rw (g, h) refl))
          ]
        ]
  ]

  -- Of a request that is not allowed nothing comes but a reply: for each call, the service is as it was
  -- but for the answer, or the request is allowed.
  pub handle-Allowed :
      (env : Env) (c : Context) (r : Request) (s : Service)
      → ((b : Body) × (handle stringify parse env c r s ≡ reply r.envelope.request_id b s))
        ⊎ Allowed c r s
  unfolding handle
  handle-Allowed env c r s =
      Outcome-if c r s s.closed _ _ (inl (failed unavailable, refl))
        (λ e. by_envelope e (parse_envelope r.envelope) refl)
    where
      by_envelope :
          s.closed ≡ false
          → (x : Parsed) → parse_envelope r.envelope ≡ x
          → Outcome c r s (elim x [
            | refused code ↦ reply r.envelope.request_id (failed code) s
            | parsed e ↦ handle_parsed stringify parse env c r e s
          ])
      by_envelope o (refused code) h = inl (failed code, refl)
      by_envelope o (parsed e) h = handle_parsed-Allowed env c r e s o (parsed-known r.envelope e h)
