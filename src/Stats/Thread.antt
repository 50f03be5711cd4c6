-- ===== src/Stats/Thread.antt =====
-- The history of a thread: `threadStats` of internal/app/stats.go and what the operations of `Stats`
-- write in it. Durations and the counts of turns are 64-bit patterns.
use codex_balancer.Prelude.{
  ℕ, if◌then◌else◌, Bool, not, ◌&&◌, List, [], ◌∷◌, ◌++◌, any, String, str_eq, ℤ,
}
use codex_balancer.Account.Window.{Time, before}
use codex_balancer.Ledger.Credits.{wrap_add}
use codex_balancer.Pricing.Usage.{ResponseUsage, no_usage, add_usage, UsageCost, no_cost, add_cost}
use codex_balancer.Pricing.Tier.{Tier}

pub data Transport : Type 0 where
  transport_unset transport_http transport_websocket : Transport

pub record ApiKeyIdentity : Type 0 where
  pub name : String
  pub suffix : String

abbrev no_identity : ApiKeyIdentity
no_identity = record { name = ""; suffix = "" }

pub record TurnMetadata : Type 0 where
  pub request_kind : String
  pub thread_id : String
  pub turn_id : String
  pub window_id : String
  pub parent_thread_id : String
  pub parent_turn_id : String
  pub forked_from_thread_id : String
  pub subagent_kind : String
  pub compaction_trigger : String
  pub compaction_reason : String
  pub compaction_phase : String

abbrev pub no_metadata : TurnMetadata
no_metadata = record {
  request_kind = "";
  thread_id = "";
  turn_id = "";
  window_id = "";
  parent_thread_id = "";
  parent_turn_id = "";
  forked_from_thread_id = "";
  subagent_kind = "";
  compaction_trigger = "";
  compaction_reason = "";
  compaction_phase = "";
}

pub record ThreadModel : Type 0 where
  pub name : String
  pub efforts : List String

-- The cost counts `apiCostNanoDollars` and `unpricedResponses`.
pub record ThreadStats : Type 0 where
  pub client_ip : String
  pub api_key : ApiKeyIdentity
  pub account : String
  pub model : String
  pub models : List ThreadModel
  pub effort : String
  pub service_tier : Tier
  pub via : Transport
  pub metadata : TurnMetadata
  pub turns : ℕ
  pub compactions : ℕ
  pub usage : ResponseUsage
  pub latest_usage : ResponseUsage
  pub cost : UsageCost
  pub ttfb : ℕ
  pub latency : ℕ
  pub created_at : Time
  pub segment_started_at : Time
  pub last : Time

unfoldable pub new_thread : Time → ThreadStats
new_thread now = record {
  client_ip = "";
  api_key = no_identity;
  account = "";
  model = "";
  models = [];
  effort = "";
  service_tier = [];
  via = transport_unset;
  metadata = no_metadata;
  turns = 0;
  compactions = 0;
  usage = no_usage;
  latest_usage = no_usage;
  cost = no_cost;
  ttfb = 0;
  latency = 0;
  created_at = now;
  segment_started_at = now;
  last = 0;
}

-- A thread that moves to another account starts a new segment.
unfoldable pub new_segment : Time → String → ThreadStats → ThreadStats
new_segment now account t =
    if not (str_eq t.account "") && not (str_eq t.account account)
    then record t {
      turns = 0;
      usage = no_usage;
      latest_usage = no_usage;
      models = [];
      cost = no_cost;
      ttfb = 0;
      latency = 0;
      segment_started_at = now;
    }
    else t

pub record Routed : Type 0 where
  pub client_ip : String
  pub account : String
  pub model : String
  pub effort : String
  pub service_tier : Tier
  pub metadata : TurnMetadata

unfoldable pub route_thread : Time → Routed → ThreadStats → ThreadStats
unfolding new_segment
route_thread now r t =
    let segment = new_segment now r.account t in
    record segment {
      client_ip = r.client_ip;
      account = r.account;
      model = r.model;
      effort = r.effort;
      service_tier = r.service_tier;
      metadata = r.metadata;
      turns = wrap_add segment.turns 1;
      last = now;
    }

-- The thread still belongs to the account, in the segment that the time falls in.
abbrev in_segment : Time → String → ThreadStats → Bool
in_segment at account t = str_eq t.account account && not (before at t.segment_started_at)

unfoldable pub answer_thread : Time → String → ℕ → ThreadStats → ThreadStats
answer_thread at account ttfb t = if in_segment at account t then record t { ttfb = ttfb } else t

abbrev count_compaction : String → ThreadStats → ThreadStats
count_compaction request_kind t =
    if str_eq request_kind "compaction"
    then record t { compactions = wrap_add t.compactions 1 }
    else t

unfoldable pub complete_thread : Time → String → String → ℕ → ThreadStats → ThreadStats
complete_thread at account request_kind latency t =
    let counted = count_compaction request_kind t in
    if before at t.created_at
    then t
    else if in_segment at account counted
    then record counted { latency = latency }
    else counted

abbrev add_effort : String → List String → List String
add_effort effort efforts =
    if not (str_eq effort "") && not (any (λ e. str_eq e effort) efforts)
    then efforts ++ effort ∷ []
    else efforts

-- The models of a segment in the order of their first use, each with its efforts.
unfoldable pub add_model : String → String → List ThreadModel → List ThreadModel
add_model model effort [] = record { name = model; efforts = add_effort effort [] } ∷ []
add_model model effort (m ∷ models) =
    let rest = add_model model effort models in
    if str_eq m.name model
    then record m { efforts = add_effort effort m.efforts } ∷ models
    else m ∷ rest

unfoldable pub use_thread :
    Time → String → String → String → ResponseUsage → ℤ × Bool → ThreadStats → ThreadStats
unfolding add_model add_usage add_cost
use_thread at account model effort usage price t =
    if in_segment at account t
    then record t {
      model = model;
      models = if str_eq model "" then t.models else add_model model effort t.models;
      usage = add_usage t.usage usage;
      latest_usage = usage;
      cost = add_cost t.cost price;
    }
    else t
