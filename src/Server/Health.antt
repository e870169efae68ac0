-- ===== src/Server/Health.antt =====
-- The health reports of cmd/seawise/server/service_lifecycle.go that fail are made again.
use seawise_client.Api.{Result-cases, err, ApiError}
use seawise_client.Server.{FrpClient, Account, World, Server}
use seawise_client.Prelude.{
  ◌≡◌, refl, sym, inl, inr, Bool, true, false, ◌||◌, none, some, List, [], ◌∷◌, arith, Bool-cases,
  any, ℤ, subst, ◌∙◌, Option-cases, is_empty, case_if,
}
use seawise_client.Server.Reporting.{
  check_and_report_health, forget, last_of, check_services, health_of,
}
use seawise_client.Api.Registry.{report_service_health, ServiceHealthStatus}
use seawise_client.Prelude.Dict.{put, delete, Dict}
use seawise_client.Prelude.Bytes.{Bytes, lit, ◌==◌, eq_of_==}
use seawise_client.Services.Tunnels.{TunnelService}

-- A status of this id is among those.
abbrev pub reports_id : Bytes → List ServiceHealthStatus → Bool
reports_id id xs = any (λ x. x.id == id) xs

abbrev is_of : Dict Bytes → Bytes → TunnelService → Bool
is_of cache id t = elim (cache t.tunnel_subdomain) [ none ↦ false | some i ↦ i == id ]

health_of_told : (dials : Bytes → ℤ → Bool) (t : TunnelService) → ([] == health_of dials t) ≡ false
unfolding health_of ◌==◌ lit
health_of_told dials t = elim (Bool-cases (dials t.local_ip t.local_port)) [
  | inl up ↦ rw up refl
  | inr down ↦ rw down refl
]

last_of-put :
    (health : Dict Bytes) (i status id : Bytes)
    → (i == id) ≡ false
    → last_of (put i status health) id ≡ last_of health id
unfolding last_of
last_of-put health i status id e = rw (e, last_of) refl

last_of-forget :
    (xs : List ServiceHealthStatus) (health : Dict Bytes) (id : Bytes)
    → last_of health id ≡ []
    → last_of (forget xs health) id ≡ []
unfolding forget last_of
last_of-forget [] health id h = h
last_of-forget (x ∷ xs) health id h = elim (Bool-cases (x.id == id)) [
  | inl same ↦ last_of-forget xs (delete x.id health) id (rw (same, last_of) refl)
  | inr other ↦ last_of-forget xs (delete x.id health) id (rw (other, last_of) h)
]

forget-told :
    (xs : List ServiceHealthStatus) (health : Dict Bytes) (id : Bytes)
    → reports_id id xs ≡ true
    → last_of (forget xs health) id ≡ []
unfolding forget last_of
forget-told [] health id h = absurd cc
forget-told (x ∷ xs) health id h = elim (Bool-cases (x.id == id)) [
  | inl same ↦ last_of-forget xs (delete x.id health) id (rw (same, last_of) refl)
  | inr other ↦ forget-told xs (delete x.id health) id (ground arith)
]

check_services-is_of :
    (dials : Bytes → ℤ → Bool) (cache : Dict Bytes) (ts : List TunnelService) (health : Dict Bytes)
    (id : Bytes)
    → reports_id id (check_services dials cache ts health).0 ≡ true
    → any (is_of cache id) ts ≡ true
unfolding check_services
check_services-is_of dials cache [] health id h = h
check_services-is_of dials cache (t ∷ ts) health id h =
    elim (Option-cases (cache t.tunnel_subdomain)) [
      | inl unknown ↦ ground (arith, check_services-is_of dials cache ts health id)
      | inr (i, known) ↦ ground (
        arith,
        check_services-is_of dials cache ts health id,
        check_services-is_of dials cache ts (put i (health_of dials t) health) id,
      )
    ]

or_true : (b : Bool) {c : Bool} → c ≡ true → (b || c) ≡ true
or_true true h = refl
or_true false h = h

check_services-told :
    (dials : Bytes → ℤ → Bool) (cache : Dict Bytes) (ts : List TunnelService) (health : Dict Bytes)
    (id : Bytes)
    → any (is_of cache id) ts ≡ true
    → last_of health id ≡ []
    → reports_id id (check_services dials cache ts health).0 ≡ true
unfolding check_services
check_services-told dials cache [] health id h k = h
check_services-told dials cache (t ∷ ts) health id h k =
    elim (Option-cases (cache t.tunnel_subdomain)) [
      | inl unknown ↦ ground (arith, check_services-told dials cache ts health id)
      | inr (i, known) ↦ elim (Bool-cases (i == id)) [
        | inl same ↦
            let e : i ≡ id = eq_of_== i id same in
            ground (arith, health_of_told dials t, subst (λ x. last_of health x ≡ []) (sym e) k)
        | inr other ↦
            let h' : any (is_of cache id) ts ≡ true = ground (arith, known) in
            let later = put i (health_of dials t) health in
            let kept = check_services-told dials cache ts health id h' k in
            let told =
              check_services-told dials cache ts later id h'
                (last_of-put health i (health_of dials t) id other ∙ k) in
            rw (known, check_services)
              (case_if {B = List ServiceHealthStatus × Dict Bytes} (λ x. reports_id id x.0 ≡ true)
                (last_of health i == health_of dials t) (λ e. kept) (λ e. or_true (i == id) told))
      ]
    ]

reported_changes :
    (w : World) (dials : Bytes → ℤ → Bool) (s : Server) (c : Account) (client : FrpClient)
    → s.cfg ≡ some c
    → s.frp ≡ some client
    → is_empty client.services ≡ false
    → (check_and_report_health w dials true s).0
      ≡ (check_services dials s.service_cache client.services s.last_health_status).0
unfolding check_and_report_health
reported_changes w dials s c client set there busy =
    let out = check_services dials s.service_cache client.services s.last_health_status in
    elim (Bool-cases (is_empty out.0)) [
      | inl quiet ↦ ground arith
      | inr loud ↦ elim (Result-cases (report_service_health w.http c.server_id out.0 s.api).0) [
        | inl (u, fine) ↦ ground arith
        | inr (e, bad) ↦ ground arith
      ]
    ]

forgotten_changes :
    (w : World) (dials : Bytes → ℤ → Bool) (s : Server) (c : Account) (client : FrpClient)
    (e : ApiError)
    → s.cfg ≡ some c
    → s.frp ≡ some client
    → is_empty client.services ≡ false
    → is_empty (check_services dials s.service_cache client.services s.last_health_status).0 ≡ false
    → (report_service_health w.http c.server_id
        (check_services dials s.service_cache client.services s.last_health_status).0
        s.api).0
      ≡ err e
    → (check_and_report_health w dials true s).1 ≡ record s {
      last_health_status =
          forget
            (check_services dials s.service_cache client.services s.last_health_status).0
            (check_services dials s.service_cache client.services s.last_health_status).1;
    }
unfolding check_and_report_health
forgotten_changes w dials s c client e set there busy loud bad = ground arith

nonempty_of :
    (id : Bytes) (xs : List ServiceHealthStatus) → reports_id id xs ≡ true → is_empty xs ≡ false
nonempty_of id [] h = absurd cc
nonempty_of id (x ∷ xs) h = refl

untold_without_client :
    (w : World) (dials : Bytes → ℤ → Bool) (s : Server) (id : Bytes)
    → s.frp ≡ none
    → ¬ (reports_id id (check_and_report_health w dials true s).0 ≡ true)
unfolding check_and_report_health
untold_without_client w dials s id gone told = elim (Option-cases s.cfg) [
  | inl unset ↦ ground arith
  | inr (c, set) ↦ ground arith
]

untold_without_services :
    (w : World) (dials : Bytes → ℤ → Bool) (s : Server) (client : FrpClient) (id : Bytes)
    → s.frp ≡ some client
    → is_empty client.services ≡ true
    → ¬ (reports_id id (check_and_report_health w dials true s).0 ≡ true)
unfolding check_and_report_health
untold_without_services w dials s client id there bare told = elim (Option-cases s.cfg) [
  | inl unset ↦ ground arith
  | inr (c, set) ↦ ground arith
]

-- A failed report loses nothing: every service whose status it was to tell is told again by the
-- next check that can be made with the same services, whatever the status is by then.
pub check_and_report_health-again :
    (w w' : World) (dials dials' : Bytes → ℤ → Bool) (s : Server) (c : Account) (e : ApiError)
    (id : Bytes)
    → s.cfg ≡ some c
    → (report_service_health w.http c.server_id (check_and_report_health w dials true s).0 s.api).0
      ≡ err e
    → reports_id id (check_and_report_health w dials true s).0 ≡ true
    → reports_id id
        (check_and_report_health w' dials' true (check_and_report_health w dials true s).1).0
      ≡ true
check_and_report_health-again w w' dials dials' s c e id set bad told = elim (Option-cases s.frp) [
  | inl gone ↦ absurd (untold_without_client w dials s id gone told)
  | inr (client, there) ↦ elim (Bool-cases (is_empty client.services)) [
    | inl bare ↦ absurd (untold_without_services w dials s client id there bare told)
    | inr busy ↦
        let out = check_services dials s.service_cache client.services s.last_health_status in
        let same = reported_changes w dials s c client set there busy in
        let told' : reports_id id out.0 ≡ true = subst (λ xs. reports_id id xs ≡ true) same told in
        let s' : Server = record s { last_health_status = forget out.0 out.1 } in
        let after : (check_and_report_health w dials true s).1 ≡ s' =
          forgotten_changes w dials s c client e set there busy (nonempty_of id out.0 told') (
            subst (λ xs. (report_service_health w.http c.server_id xs s.api).0 ≡ err e) same bad) in
        subst (λ x. reports_id id (check_and_report_health w' dials' true x).0 ≡ true) (sym after)
          (subst (λ xs. reports_id id xs ≡ true)
            (sym (reported_changes w' dials' s' c client set there busy))
            (check_services-told dials' s.service_cache client.services (forget out.0 out.1) id
              (check_services-is_of dials s.service_cache client.services s.last_health_status id
                told')
              (forget-told out.0 out.1 id told')))
  ]
]
