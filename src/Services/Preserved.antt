-- ===== src/Services/Preserved.antt =====
-- Each function of cmd/seawise/server/service_sync.go keeps the invariant of machine.json.
use seawise_client.Prelude.{
  ◌≡◌, refl, sym, ◌⊎◌, inl, inr, Bool, true, false, not, ◌||◌, Option, none, some, List, [], ◌∷◌,
  map, arith, Bool-cases, all, any, ℤ, subst, Option-cases, all-append, is_empty,
}
use seawise_client.Prelude.Bytes.{Bytes, Unicode, equal_fold}
use seawise_client.Config.{Error, LocalService, Machine, File, Write, changed, load, update_machine}
use seawise_client.Services.{
  registered_as, unregistered, add_change, add_local_service, has_local_id, update_first,
  record_change, record_server_registration, remove_change, remove_local_service, disabled_as,
  disable_change, set_local_service_disabled, clear_change, clear_server_registrations,
}
use seawise_client.Services.Registration.{
  Client, BatchRegisterResult, input_of, is_waiting, result_by_name, to_register, record_result,
  record_results, drop_vanished, vanished_change, register_local_services,
  reconcile_machine_services_with_server,
}
use seawise_client.Services.Invariant.{
  is_settled, well_formed, IsWellFormed, IsTame, all_weaken, well_formed-map, distinct-append,
  well_formed-update_first, well_formed-remove_first, update_machine-IsWellFormed,
}

-- A local id that no service of the file has.
abbrev pub IsFresh : Bytes → File Machine → Type 0
IsFresh local_id f =
    (m : Machine) → load f ≡ some m → any (has_local_id local_id) m.services ≡ false

-- No service of the file with this local id is disabled.
abbrev pub IsEnabled : Bytes → File Machine → Type 0
IsEnabled local_id f =
    (m : Machine)
    → load f ≡ some m
    → all (λ s. not (has_local_id local_id s) || not s.disabled) m.services ≡ true

-- The file of an operation that answers differently when its update fails.
either_file :
    {A : Type 0} (careful : Bool) (u : Unicode) (e : Option Error) (a : A) (b : Error → A)
    (f : File Machine)
    → IsWellFormed careful u f
    → IsWellFormed careful u
        (elim e as (λ x. A × File Machine) [ none ↦ (a, f) | some err ↦ (b err, f) ]).1
either_file careful u none a b f h = h
either_file careful u (some err) a b f h = h

module _ (careful : Bool) (u : Unicode) where
  add_change-well_formed :
      (svc : LocalService) (m m' : Machine)
      → svc.disabled ≡ false
      → any (has_local_id svc.local_id) m.services ≡ false
      → add_change u svc m ≡ changed m'
      → well_formed careful u m.services ≡ true
      → well_formed careful u m'.services ≡ true
  unfolding add_change
  add_change-well_formed svc m m' e fresh c k =
      elim (Bool-cases (any (λ s. equal_fold u s.name svc.name) m.services)) [
        | inl taken ↦ absurd (ground arith)
        | inr free ↦ ground (
          arith,
          all-append (is_settled careful) m.services (svc ∷ []),
          distinct-append careful u m.services svc (ground arith) fresh free,
        )
      ]

  pub add_local_service-IsWellFormed :
      (w : Write) (local_id : Option Bytes) (name host : Bytes) (port : ℤ) (icon_url : Bytes)
      (f : File Machine)
      → ((id : Bytes) → local_id ≡ some id → IsFresh id f)
      → IsWellFormed careful u f
      → IsWellFormed careful u (add_local_service u w local_id name host port icon_url f).1
  unfolding add_local_service
  add_local_service-IsWellFormed w none name host port icon_url f fresh h = h
  add_local_service-IsWellFormed w (some id) name host port icon_url f fresh h =
      either_file careful u _ _ _ _ (
        update_machine-IsWellFormed careful u w _ f h
          (λ m m' l c k. add_change-well_formed _ m m' refl (fresh id refl m l) c k))

  record_result-IsTame :
      (sent : List LocalService) (results : List BatchRegisterResult)
      → IsTame careful (record_result sent results)
  unfolding IsTame record_result is_waiting
  record_result-IsTame sent results s = elim (Option-cases (result_by_name results s.name)) [
    | inl unnamed ↦ (ground arith, ground arith, λ h. ground arith)
    | inr (r, named) ↦ (ground arith, ground arith, λ h. ground arith)
  ]

  drop_vanished-IsTame : (ids : List Bytes) → IsTame careful (drop_vanished ids)
  unfolding IsTame drop_vanished
  drop_vanished-IsTame ids s = (ground arith, ground arith, λ h. ground arith)

  all-true : (ss : List LocalService) → all (λ s. true) ss ≡ true
  all-true [] = refl
  all-true (s ∷ ss) = all-true ss

  all-enabled :
      (id server_id subdomain : Bytes) (ss : List LocalService)
      → (careful ≡ true → all (λ s. not (has_local_id id s) || not s.disabled) ss ≡ true)
      → all
          (λ s. not (has_local_id id s) || is_settled careful (registered_as server_id subdomain s))
          ss
        ≡ true
  all-enabled id server_id subdomain ss h = elim (Bool-cases careful) [
    | inr lax ↦
        all_weaken careful u (λ s. true)
          (λ s. not (has_local_id id s) || is_settled careful (registered_as server_id subdomain s))
          (λ s e. ground arith) ss (all-true ss)
    | inl strict ↦
        all_weaken careful u (λ s. not (has_local_id id s) || not s.disabled)
          (λ s. not (has_local_id id s) || is_settled careful (registered_as server_id subdomain s))
          (λ s e. ground arith) ss (h strict)
  ]

  pub record_server_registration-IsWellFormed :
      (w : Write) (local_id server_service_id subdomain : Bytes) (f : File Machine)
      → (careful ≡ true → IsEnabled local_id f)
      → IsWellFormed careful u f
      → IsWellFormed careful u
          (record_server_registration w local_id server_service_id subdomain f).1
  unfolding record_server_registration record_change
  record_server_registration-IsWellFormed w id server_id subdomain f enabled h =
      update_machine-IsWellFormed careful u w (record_change id server_id subdomain) f h
        (λ m m' l c k.
          elim (Option-cases
            (update_first (has_local_id id) (registered_as server_id subdomain) m.services)) [
              | inl gone ↦ absurd (ground arith)
              | inr (ss, found) ↦ ground (
                arith,
                well_formed-update_first careful u (has_local_id id)
                    (registered_as server_id subdomain) (λ s. refl) (λ s. refl) m.services ss found
                    k
                    (all-enabled id server_id subdomain m.services (λ strict. enabled strict m l)),
              )
            ])

  pub remove_local_service-IsWellFormed :
      (w : Write) (p : LocalService → Bool) (f : File Machine)
      → IsWellFormed careful u f
      → IsWellFormed careful u (remove_local_service w p f).1
  unfolding remove_local_service remove_change
  remove_local_service-IsWellFormed w p f h = either_file careful u _ _ _ _ (
      update_machine-IsWellFormed careful u w (remove_change p) f h
        (λ m m' l c k. ground (arith, well_formed-remove_first careful u p m.services k)))

  pub set_local_service_disabled-IsWellFormed :
      (w : Write) (local_id : Bytes) (disabled : Bool) (f : File Machine)
      → IsWellFormed careful u f
      → IsWellFormed careful u (set_local_service_disabled w local_id disabled f).1
  unfolding set_local_service_disabled disable_change disabled_as
  set_local_service_disabled-IsWellFormed w id disabled f h =
      update_machine-IsWellFormed careful u w (disable_change id disabled) f h (λ m m' l c k.
        elim (Option-cases (update_first (has_local_id id) (disabled_as disabled) m.services)) [
          | inl gone ↦ ground arith
          | inr (ss, found) ↦ ground (
            arith,
            well_formed-update_first careful u (has_local_id id) (disabled_as disabled)
                (λ s. ground arith) (λ s. ground arith) m.services ss found k
                (all_weaken careful u (is_settled careful)
                  (λ s. not (has_local_id id s) || is_settled careful (disabled_as disabled s))
                  (λ s e. ground arith) m.services (ground arith)),
          )
        ])

  pub clear_server_registrations-IsWellFormed :
      (w : Write) (f : File Machine)
      → IsWellFormed careful u f
      → IsWellFormed careful u (clear_server_registrations w f).1
  unfolding clear_server_registrations clear_change IsTame
  clear_server_registrations-IsWellFormed w f h =
      update_machine-IsWellFormed careful u w clear_change f h (λ m m' l c k. ground (
        arith,
        well_formed-map careful u unregistered (λ s. (refl, refl, λ e. ground arith)) m.services k,
      ))

  -- The file that a registration leaves.
  register_local_services_file :
      (w : Write) (client : Option Client) (f g : File Machine)
      → ((register_local_services w (λ h. g) client f).1 ≡ f)
        ⊎ ((register_local_services w (λ h. g) client f).1 ≡ g)
        ⊎ ((sent : List LocalService) × (results : List BatchRegisterResult)
            × ((register_local_services w (λ h. g) client f).1
                ≡ (update_machine w (record_results sent results) g).1))
  unfolding register_local_services
  register_local_services_file w none f g = inl refl
  register_local_services_file w (some client) f g = elim (Option-cases (load f)) [
    | inl unread ↦ inl (ground arith)
    | inr (m, e) ↦ elim (Bool-cases (is_empty (to_register m.services))) [
      | inl nothing ↦ inl (ground arith)
      | inr waiting ↦
          elim (Option-cases
            (client.batch_register_services (map input_of (to_register m.services)))) [
              | inl refused ↦ inr (inl (ground arith))
              | inr (results, answered) ↦ inr (inr (to_register m.services, results, ground arith))
            ]
    ]
  ]

  pub register_local_services-IsWellFormed :
      (w : Write) (client : Option Client) (f g : File Machine)
      → IsWellFormed careful u f
      → IsWellFormed careful u g
      → IsWellFormed careful u (register_local_services w (λ h. g) client f).1
  unfolding record_results
  register_local_services-IsWellFormed w client f g h k =
      elim (register_local_services_file w client f g) [
        | inl e ↦ subst (IsWellFormed careful u) (sym e) h
        | inr (inl e) ↦ subst (IsWellFormed careful u) (sym e) k
        | inr (inr (sent, results, e)) ↦ subst (IsWellFormed careful u) (sym e) (
            update_machine-IsWellFormed careful u w (record_results sent results) g k (λ m m' l c i.
              ground (
                arith,
                well_formed-map careful u (record_result sent results)
                    (record_result-IsTame sent results) m.services i,
              )))
      ]

  pub reconcile_machine_services_with_server-IsWellFormed :
      (w v : Write) (client : Option Client) (f g g' : File Machine)
      → IsWellFormed careful u f
      → IsWellFormed careful u g'
      → IsWellFormed careful u
          (reconcile_machine_services_with_server w v (λ i. g) (λ i. g') client f).1
  unfolding reconcile_machine_services_with_server vanished_change
  reconcile_machine_services_with_server-IsWellFormed w v none f g g' h k = h
  reconcile_machine_services_with_server-IsWellFormed w v (some client) f g g' h k =
      elim (Option-cases client.list_services) [
        | inl e ↦ rw e k
        | inr (ids, e) ↦ rw e (
            either_file careful u _ _ _ _ (
              update_machine-IsWellFormed careful u v (vanished_change ids) g' k (λ m m' l c i.
                ground (
                  arith,
                  well_formed-map careful u (drop_vanished ids) (drop_vanished-IsTame ids)
                      m.services i,
                ))))
      ]
