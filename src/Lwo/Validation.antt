-- ===== src/Lwo/Validation.antt =====
-- `LwoBackend::validate` of `crates/routeguard-lwo/src/backend.rs`. Whether the text of the
-- configuration has the keys (keys.rs) and an endpoint of the peer (conf.rs) are arguments.
use route_guard.Prelude.{
  Bool, true, false, ◌&&◌, ◌||◌, not, Option, none, some, List, [], ◌∷◌, ◌++◌, is_empty, is_some,
}
use route_guard.Prelude.Text.{Text, bytes}
use route_guard.Core.Transport.{TunnelTransportConfig, LwoTransportConfig}

pub record TransportValidationIssue : Type 0 where
  pub field : Text
  pub message : Text

pub record TransportValidateResult : Type 0 where
  pub valid : Bool
  pub issues : List TransportValidationIssue

abbrev issue : Text → Text → TransportValidationIssue
issue field message = record { field = field; message = message }

-- `issues.push(..)` under an if
abbrev when : Bool → TransportValidationIssue → List TransportValidationIssue
when true i = i ∷ []
when false i = []

abbrev pub has_remote_udp : Option LwoTransportConfig → Bool
has_remote_udp none = false
has_remote_udp (some l) = is_some l.remote_udp

abbrev verdict : List TransportValidationIssue → TransportValidateResult
verdict issues = record { valid = is_empty issues; issues = issues }

-- `validate`
unfoldable pub validate : Bool → Bool → TunnelTransportConfig → TransportValidateResult
validate keys_parse has_peer cfg =
    let has_remote : Bool = has_remote_udp cfg.lwo || has_peer in
    verdict (
      (when (not keys_parse) (
          issue (bytes "lwo.keys")
            (bytes "LWO requires valid Interface PrivateKey and Peer PublicKey"))
        ++ when (not has_remote) (
            issue (bytes "transport.lwo.remoteUdp")
              (bytes "LWO requires RemoteUDP or peer Endpoint")))
      ++ when (cfg.require_lwo && not keys_parse)
          (issue (bytes "transport.requireLwo") (bytes "require_lwo set but keys invalid")))
