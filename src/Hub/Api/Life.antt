-- ===== src/Hub/Api/Life.antt =====
-- internal/hub/api.go: an approval, and the connector that collects it.
use robi_net.Result.{Result}
use robi_net.Hub.Types.{Decision}
use robi_net.Hub.Store.{Store}
