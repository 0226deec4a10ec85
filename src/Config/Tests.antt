-- ===== src/Config/Tests.antt =====
-- Runs of `ws_base_url`.
use open_rmf_adapters_quiksy.Base.{◌↔◌, ◌≡◌}
use open_rmf_adapters_quiksy.Base.Exec.{ok}
use open_rmf_adapters_quiksy.Python.{str}
use open_rmf_adapters_quiksy.Config.Url.{ws_base_url, HasWsUrl, ws_base_url_iff}

ws_base_url_iff_example :
    (ws_base_url (str "https://host") ≡ ok "wss://host") ↔ HasWsUrl "https://host" "wss://host"
ws_base_url_iff_example = ws_base_url_iff "https://host" "wss://host"
