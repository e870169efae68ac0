-- ===== src/Server/Releasing.antt =====
-- The flag of handleFRPCrash of cmd/seawise/server/service_lifecycle.go.
use seawise_client.Server.{Server}
