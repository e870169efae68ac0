-- ===== src/Services/Registering.antt =====
-- What registerLocalServices of cmd/seawise/server/service_sync.go does.
use seawise_client.Prelude.{
  ◌≡◌, refl, ◌⊎◌, inl, inr, true, false, ◌&&◌, none, some, List, [], ◌∷◌, ◌++◌, map, arith,
  Bool-cases, any, subst, is_empty,
}
use seawise_client.Prelude.Bytes.{Bytes, ◌==◌, eq_of_==}
use seawise_client.Config.{LocalService, Machine, File, holds, load, Write}
use seawise_client.Services.{registered_as}
use seawise_client.Services.Registration.{
  Client, BatchRegisterResult, is_waiting, input_of, to_register, result_key, result_by_name,
  was_sent, record_result, record_results, register_local_services,
}
use seawise_client.Config.Updates.{update_machine_written}

-- The last result for a name.
abbrev pub IsLast : Bytes → BatchRegisterResult → List BatchRegisterResult → Type 0
IsLast name r results =
    (earlier : List BatchRegisterResult) × (later : List BatchRegisterResult) × (results
      ≡ earlier ++ r ∷ later)
    × (result_key r ≡ name)
    × (any (λ q. result_key q == name) later ≡ false)

result_by_name_lem :
    (results : List BatchRegisterResult) (name : Bytes)
    → ((result_by_name results name ≡ none) × (any (λ q. result_key q == name) results ≡ false))
      ⊎ ((r : BatchRegisterResult) × (result_by_name results name ≡ some r) × IsLast name r results)
unfolding result_by_name
result_by_name_lem [] name = inl (refl, refl)
result_by_name_lem (q ∷ results) name = elim (result_by_name_lem results name) [
  | inr (r, e, (earlier, later, split, key, last)) ↦
      inr (r, ground arith, (q ∷ earlier, later, ground arith, key, last))
  | inl (e, unnamed) ↦ elim (Bool-cases (result_key q == name)) [
    | inl same ↦
        inr (q, ground arith, ([], results, refl, eq_of_== (result_key q) name same, unnamed))
    | inr other ↦ inl (ground arith, ground arith)
  ]
]

-- What a service becomes in a registration: it is the same if it was not sent, is registered or
-- disabled by now, or no result is for its name; else it takes the id and the subdomain of the
-- last result for its name.
abbrev pub RegistersTo :
    List LocalService → List BatchRegisterResult → LocalService → LocalService → Type 0
RegistersTo sent results s s' =
    ((s' ≡ s)
      × (((was_sent sent s.local_id && is_waiting s) ≡ false)
          ⊎ (any (λ q. result_key q == s.name) results ≡ false)))
    ⊎ ((was_sent sent s.local_id ≡ true)
        × (is_waiting s ≡ true)
        × ((r : BatchRegisterResult) × IsLast s.name r results
            × (s' ≡ registered_as r.id r.result_subdomain s)))

-- Two lists whose services are related one by one.
abbrev pub Each :
    (LocalService → LocalService → Type 0) → List LocalService → List LocalService → Type 0
Each R [] [] = Unit
Each R [] (t ∷ ts) = ⊥
Each R (s ∷ ss) [] = ⊥
Each R (s ∷ ss) (t ∷ ts) = R s t × Each R ss ts

record_result-RegistersTo :
    (sent : List LocalService) (results : List BatchRegisterResult) (s : LocalService)
    → RegistersTo sent results s (record_result sent results s)
unfolding record_result
record_result-RegistersTo sent results s =
    elim (Bool-cases (was_sent sent s.local_id && is_waiting s)) [
      | inl due ↦ elim (result_by_name_lem results s.name) [
        | inl (e, unnamed) ↦ inl (ground arith, inr unnamed)
        | inr (r, e, last) ↦ inr (ground arith, ground arith, (r, last, ground arith))
      ]
      | inr shut ↦ inl (ground arith, inl shut)
    ]

Each-record_result :
    (sent : List LocalService) (results : List BatchRegisterResult) (ss : List LocalService)
    → Each (RegistersTo sent results) ss (map (record_result sent results) ss)
Each-record_result sent results [] = tt
Each-record_result sent results (s ∷ ss) =
    (record_result-RegistersTo sent results s, Each-record_result sent results ss)

-- The file g before and f' after the update of a registration.
abbrev pub IsRegistered :
    List LocalService → List BatchRegisterResult → File Machine → File Machine → Type 0
IsRegistered sent results g f' =
    (n : Machine) × (n' : Machine) × (g ≡ holds n)
    × (f' ≡ holds n')
    × Each (RegistersTo sent results) n.services n'.services

-- A successful registration that had services to send: the file at the time of the update keeps
-- its services in their order, and only those change that were sent, still wait and got a result.
pub register_local_services-IsRegistered :
    (w : Write) (meanwhile : File Machine → File Machine) (client : Client) (m : Machine)
    (results : List BatchRegisterResult) (f' : File Machine)
    → is_empty (to_register m.services) ≡ false
    → client.batch_register_services (map input_of (to_register m.services)) ≡ some results
    → register_local_services w meanwhile (some client) (holds m) ≡ (none, f')
    → IsRegistered (to_register m.services) results (meanwhile (holds m)) f'
unfolding register_local_services record_results load
register_local_services-IsRegistered w meanwhile client m results f' some_wait answer e =
    let sent = to_register m.services in
    let (n, n', h, c, k) =
      update_machine_written w (record_results sent results) (meanwhile (holds m)) f'
        (ground arith) in
    (
      n,
      n',
      h,
      k,
      subst (Each (RegistersTo sent results) n.services) (ground arith)
          (Each-record_result sent results n.services),
    )
