-- ===== src/Api/Types.antt =====
-- frontend/src/api/types.ts: the payloads, as the pages read them. A field that no page reads, or
-- that a page only prints, keeps its place; a JSON number is a natural number.
use mcpxy.Prelude.{ℕ, String, Bool, true, false, Option, List}
use mcpxy.Api.Json.{Json, Fields}

pub data TrafficStatus : Type 0 where
  ok_status error_status timeout_status denied_status : TrafficStatus

pub record TrafficRecord : Type 0 where
  pub timestamp : ℕ
  pub upstream : String
  pub method : Option String
  pub request_id : Json
  pub status : TrafficStatus
  pub latency_ms : ℕ
  pub request_bytes : ℕ
  pub response_bytes : ℕ
  pub error_code : Option String
  pub client_ip : Option String

unfoldable pub is_ok_status : TrafficStatus → Bool
is_ok_status ok_status = true
is_ok_status _ = false

pub record CatalogVariable : Type 0 where
  pub name : String
  pub description : String
  pub required : Bool
  pub default : Option String
  pub secret : Bool

pub data UpstreamTransport : Type 0 where
  stdio http : UpstreamTransport

pub record CatalogEntry : Type 0 where
  pub id : String
  pub name : String
  pub description : String
  pub category : String
  pub homepage : String
  pub transport : UpstreamTransport
  pub install_hint : String
  pub tags : List String
  pub variables : List CatalogVariable
  pub command : Option String
  pub args : Option (List String)
  pub url : Option String
  pub env : Option (List (String × String))

pub record CatalogResponse : Type 0 where
  pub version : ℕ
  pub updated_at : String
  pub categories : List String
  pub entries : List CatalogEntry

pub record DiscoveredUpstream : Type 0 where
  pub source_client : String
  pub name : String
  pub config : Fields
  pub origin_path : String
  pub warnings : List String

pub record DiscoveryClient : Type 0 where
  pub client_id : String
  pub display_name : String
  pub config_path : Option String
  pub detected : Bool
  pub upstreams : List DiscoveredUpstream

pub record DiscoveryResponse : Type 0 where
  pub clients : List DiscoveryClient

pub record OnboardingDatabaseInfo : Type 0 where
  pub current_url_masked : String
  pub current_dialect : String
  pub is_default : Bool
  pub bootstrap_file_present : Bool
  pub available_dialects : List String

pub record OnboardingStatus : Type 0 where
  pub active : Bool
  pub completed : Bool
  pub expired : Bool
  pub required : Bool
  pub created_at : Option ℕ
  pub admin_token_set_at : Option ℕ
  pub first_upstream_at : Option ℕ
  pub completed_at : Option ℕ
  pub completed_by : Option String
  pub ttl_s : Option ℕ
  pub expires_at : Option ℕ
  pub database : Option OnboardingDatabaseInfo

pub record OnboardingTestDatabaseResponse : Type 0 where
  pub success : Bool
  pub dialect : Option String
  pub url_masked : Option String
  pub error : Option String

pub data OnboardingSetDatabaseMode : Type 0 where
  hot_swap restart_required : OnboardingSetDatabaseMode

pub record OnboardingSetDatabaseResponse : Type 0 where
  pub success : Bool
  pub mode : OnboardingSetDatabaseMode
  pub onboarding : OnboardingStatus

pub record ManualUpstreamResponse : Type 0 where
  pub applied : Bool
  pub error : Option String
  pub warning : Option String

-- The number of a user; -1 stands for none.
pub data ℤ : Type 0 where
  pos negsuc : ℕ → ℤ

pub record MeResponse : Type 0 where
  pub user_id : ℤ
  pub email : String
  pub role : String
  pub provider : String
  pub auth_mode : String
