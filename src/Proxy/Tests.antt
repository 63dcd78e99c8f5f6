-- ===== src/Proxy/Tests.antt =====
-- The HTTP proxy at the sample configuration.
use dockprox.Base.{true, none, some}
use dockprox.Base.Text.{Text, codes}
use dockprox.Config.Tests.{https_url, sample, sample_valid}
use dockprox.Config.Sound.{validate-new}
use dockprox.Routing.Routes.{IsRouted}
use dockprox.Routing.Tests.{ready, sample_keys, sample_dialers, sample_built, sample_matcher}
use dockprox.Proxy.Handler.{Request, Network, handle}
use dockprox.Proxy.Spec.{IsHandled}
use dockprox.Proxy.Laws.{handle-IsRouted}

abbrev connect_db : Request
connect_db = record { request_uri = codes "db.corp.example:5432"; url = none }

-- Every request is for the database, and every dial succeeds.
abbrev net : Network
net = record {
  read_request = λ t. some connect_db;
  reaches = λ d target. true;
  takes = λ d target req. true;
  response = λ d target req. none;
}

abbrev ask : Text
ask = codes "CONNECT db.corp.example:5432 HTTP/1.1"

handle-IsRouted_example :
    IsHandled net (IsRouted sample) ask (handle net sample_matcher sample_dialers ask)
handle-IsRouted_example =
    handle-IsRouted net https_url ready sample sample_dialers sample_matcher sample_keys
      sample_valid sample_built (validate-new https_url sample sample_valid).1 ask
