-- ===== src/Protocol.antt =====
-- internal/protocol/protocol.go: the protocol names in the two domains, and the interface of the
-- translators of one protocol's info.
pub mod S3
pub mod Azure
pub mod Gcs
pub mod Laws
use cosi.Base.{String, Option, none, some, List, [], ◌∷◌, ◌==◌, if◌then◌else◌}
use cosi.Base.Dict.{Dict}
use cosi.Errors.{Error, errorf, Result, ok, err}
use cosi.Rpc.{ProtocolType, unknown_protocol, s3, azure, gcs, unnamed_protocol}
use cosi.Api.Names.{protocol_s3, protocol_azure, protocol_gcs}

-- `objectProtocolProtoApiMapping`, read from the RPC side
unfoldable pub protocol_name : ProtocolType → Option String
protocol_name s3 = some protocol_s3
protocol_name azure = some protocol_azure
protocol_name gcs = some protocol_gcs
protocol_name unknown_protocol = none
protocol_name (unnamed_protocol n) = none

-- `ObjectProtocolTranslator.RpcToApi`. The number of the protocol is left out of the message.
unfoldable pub protocol_to_api : ProtocolType → Result String
unfolding protocol_name
protocol_to_api p = elim (protocol_name p) [
  | none ↦ err (errorf "unknown driver protocol %q" [])
  | some a ↦ ok a
]

-- `ObjectProtocolTranslator.ApiToRpc`. The three names differ, so the order in which the mapping is
-- searched does not matter.
unfoldable pub protocol_to_rpc : String → Result ProtocolType
protocol_to_rpc a =
    if protocol_s3 == a
    then ok s3
    else if protocol_azure == a
    then ok azure
    else if protocol_gcs == a
    then ok gcs
    else err (errorf "unknown api protocol %q" (a ∷ []))

-- `RpcApiTranslator`: bucket info or credentials of one protocol. The RPC message may be nil.
pub record RpcApiTranslator (RpcType : Type 0) : Type 0 where
  pub api_protocol : String
  pub rpc_to_api : Option RpcType → Dict String
  pub api_to_rpc : Dict String → Option RpcType
  pub validate : Dict String → String → Result (Unit {0})

-- `if v == "" { errs = append(errs, fmt.Errorf(message)) }`
unfoldable pub require : String → String → List Error
require message v = if v == "" then errorf message [] ∷ [] else []
