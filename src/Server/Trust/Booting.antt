-- ===== src/Server/Trust/Booting.antt =====
-- The addresses and hosts of the frp client at the start of the program, cmd/seawise/server/server.go.
use seawise_client.Server.{set_connection, World, Server, no_pairing, paired}
use seawise_client.Server.Trust.{
  start_services-IsSafe, set_connection-Keeps, Keeps-IsSafe, IsSafeServer, Sound, IsSafe,
}
use seawise_client.Api.Url.{new_client}
use seawise_client.Prelude.{Bool, not, none, some, case_some, case_if}
use seawise_client.Server.Starting.{start_paired}
use seawise_client.Prelude.Bytes.{Bytes}
use seawise_client.Config.{load, exists}
use seawise_client.Connection.{connecting, unpaired, disconnected}
use seawise_client.Api.{ApiClient, ok, err, set_frp_token}

module _ (p q : Bytes → Bool) (w : World) (sound : Sound p q w) where
  pub start_paired-IsSafe : (s : Server) → IsSafe p q s.frp → IsSafe p q (start_paired w s).frp
  unfolding start_paired
  start_paired-IsSafe s h =
      case_if (IsSafeServer p q) (not (exists s.disk.account))
        (λ fresh.
          Keeps-IsSafe p q w sound
            (set_connection-Keeps w unpaired (record s { pairing_state = no_pairing })) h)
        (λ stored.
          case_some (IsSafeServer p q) (load s.disk.account)
            (Keeps-IsSafe p q w sound
              (set_connection-Keeps w disconnected
                (record s { cfg = none; pairing_state = no_pairing }))
              h)
            (λ c e.
              let api : ApiClient = elim (new_client c.api_url) [
                | err why ↦ s.api
                | ok known ↦ known
              ] in
              let bound : Server = record s {
                cfg = some c;
                api = set_frp_token c.frp_token api;
                pairing_state = paired;
              } in
              start_services-IsSafe p q w sound (set_connection w connecting bound)
                (Keeps-IsSafe p q w sound (set_connection-Keeps w connecting bound) h)))
