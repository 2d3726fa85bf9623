-- ===== src/Scheduler/Turn/Prepared.antt =====
-- What `scheduleRequest` changes in the request that it hands to a worker.
use beta.Base.{
  inl, inr, ◌≡◌, refl, ap, ◌∙◌, String, Bool-cases, Result, ok, err, ◌||◌, str_eq, non_empty,
}
use beta.Types.{Worker, ContainerRequest}
use beta.Scheduler.Dispatch.{
  Credentials, keep_secret, find_secret, keep_token, attach_image_credentials,
  attach_build_registry_credentials, prepared_for,
}

-- The request has the GPU of the worker, maybe other credentials, and is else as it was.
abbrev pub Prepared : Worker → ContainerRequest → ContainerRequest → Type 0
Prepared w r r' = r' ≡ record r {
  gpu = w.gpu;
  image_credentials = r'.image_credentials;
  build_registry_credentials = r'.build_registry_credentials;
}

abbrev SecretOnly : ContainerRequest → ContainerRequest → Type 0
SecretOnly r r' = (s : String) × (r' ≡ record r { image_credentials = s })

abbrev TokenOnly : ContainerRequest → ContainerRequest → Type 0
TokenOnly r r' = (s : String) × (r' ≡ record r { build_registry_credentials = s })

keep_secret-SecretOnly :
    (answer : Result (Unit {0}) String) (r : ContainerRequest)
    → SecretOnly r (keep_secret answer r).1
keep_secret-SecretOnly (err e) r = (r.image_credentials, refl)
keep_secret-SecretOnly (ok s) r = (s, refl)

find_secret-SecretOnly :
    (c : Credentials) (answer : Result (Unit {0}) String) (r : ContainerRequest)
    → SecretOnly r (find_secret c answer r).1
find_secret-SecretOnly c (err e) r = (r.image_credentials, refl)
find_secret-SecretOnly c (ok name) r = elim (Bool-cases (non_empty name)) [
  | inl given ↦ rw given (keep_secret-SecretOnly (c.secret_value name) r)
  | inr empty ↦ rw empty (r.image_credentials, refl)
]

attach_image_credentials-SecretOnly :
    (c : Credentials) (r : ContainerRequest) → SecretOnly r (attach_image_credentials c r).1
unfolding attach_image_credentials
attach_image_credentials-SecretOnly c r = elim (Bool-cases (non_empty r.image_id)) [
  | inl given ↦ elim (Bool-cases (c.has_build_prefix r.container_id)) [
    | inl build ↦ rw given (rw build (r.image_credentials, refl))
    | inr other ↦ rw given (rw other (find_secret-SecretOnly c (c.image_secret_name r.image_id) r))
  ]
  | inr empty ↦ rw empty (r.image_credentials, refl)
]

keep_token-TokenOnly :
    (answer : Result (Unit {0}) String) (r : ContainerRequest) → TokenOnly r (keep_token answer r)
keep_token-TokenOnly (err e) r = (r.build_registry_credentials, refl)
keep_token-TokenOnly (ok token) r = elim (Bool-cases (non_empty token)) [
  | inl given ↦ rw given (token, refl)
  | inr empty ↦ rw empty (r.build_registry_credentials, refl)
]

attach_build_registry_credentials-TokenOnly :
    (c : Credentials) (r : ContainerRequest) → TokenOnly r (attach_build_registry_credentials c r)
unfolding attach_build_registry_credentials
attach_build_registry_credentials-TokenOnly c r =
    elim (Bool-cases
      (str_eq c.build_registry "" || str_eq c.build_registry "localhost" || c.has_local_prefix)) [
        | inl near ↦ rw near (r.build_registry_credentials, refl)
        | inr far ↦ elim (Bool-cases c.registry_configured) [
          | inl set ↦ rw far (rw set (keep_token-TokenOnly c.registry_token r))
          | inr unset ↦ rw far (rw unset (r.build_registry_credentials, refl))
        ]
      ]

pub prepared_for-Prepared :
    (c : Credentials) (w : Worker) (r : ContainerRequest) → Prepared w r (prepared_for c w r)
unfolding prepared_for
prepared_for-Prepared c w r =
    let r1 = record r { gpu = w.gpu } in
    let (s, e) = attach_image_credentials-SecretOnly c r1 in
    let (t, f) = attach_build_registry_credentials-TokenOnly c (attach_image_credentials c r1).1 in
    let all = f ∙ ap (λ (q : ContainerRequest). record q { build_registry_credentials = t }) e in
    rw all refl
