-- ===== src/Gateway/Usage.antt =====
-- Usage routes (services/api-gateway/src/routes/usage.ts). The ClickHouse statement is a text with
-- the values written into it; runs of white space are one space.
pub mod Verbatim
use Prim.Native.String
use ai_gcm.Base.{String, List, [], ◌∷◌, ◌++◌, none, if◌then◌else◌}
use ai_gcm.Js.{Value, JsonText, json, other, str, nat, get, truthy, or_falsy, object, items, nil}
use ai_gcm.Effect.{Error, Prog, done, await, catch, ◌>>=◌}
use ai_gcm.Zod.{
  Zod, Schema, Shape, min, max, regex, uuid, string, enum, coerced_number, optional, defaulted,
  prop,
}
use ai_gcm.Http.{Response, reply}
use ai_gcm.Gateway.Calls.{Call, fetch, read_text, FetchRequest, Fetched, Gateway, User, parsed}

abbrev date : Schema
date = string (regex "^\\d{4}-\\d{2}-\\d{2}$" ∷ [])

abbrev pub usage_query_schema : Schema
usage_query_schema = Schema.object (
    prop "start" date (
      prop "end" date (
        prop "group_by"
          (optional (enum ("user" ∷ "team" ∷ "department" ∷ "provider" ∷ "model" ∷ "project" ∷ [])))
          (prop "provider" (optional (string [])) (
            prop "team_id" (optional (string (uuid ∷ []))) (
              prop "user_id" (optional (string (uuid ∷ []))) (
                prop "limit" (defaulted (coerced_number (min 1 ∷ max 1000 ∷ [])) (nat 100))
                  Shape.nil)))))))

-- A piece of a template literal: its text, or the value in `${…}`.
pub data Fragment : Type 0 where
  lit : String → Fragment
  val : Value → Fragment

-- The text of a template literal, for the text that `String(v)` gives of a value.
unfoldable pub render : (Value → String) → List Fragment → String
render show [] = ""
render show (lit s ∷ fs) = String.◌++◌ s (render show fs)
render show (val v ∷ fs) = String.◌++◌ (show v) (render show fs)

pub record UsageQuery : Type 0 where
  pub start : Value
  pub end : Value
  pub group_by : Value
  pub provider : Value
  pub team_id : Value
  pub user_id : Value
  pub limit : Value

abbrev pub usage_query_of : Value → UsageQuery
usage_query_of q = record {
  start = get q "start";
  end = get q "end";
  group_by = get q "group_by";
  provider = get q "provider";
  team_id = get q "team_id";
  user_id = get q "user_id";
  limit = get q "limit";
}

abbrev pub quoted_if : (before : String) → Value → List Fragment
quoted_if before v = if truthy v then lit before ∷ val v ∷ lit "'" ∷ [] else []

abbrev pub group_field : UsageQuery → Value
group_field q = or_falsy q.group_by (str "provider")

abbrev pub query_end : UsageQuery → List Fragment
query_end q =
    lit " GROUP BY "
    ∷ val (group_field q)
    ∷ lit " ORDER BY cost_usd DESC LIMIT "
    ∷ val q.limit
    ∷ lit " FORMAT JSON "
    ∷ []

abbrev pub query_start : Value → UsageQuery → List Fragment
query_start org_id q =
    lit " SELECT "
    ∷ val (group_field q)
    ∷ lit
        ", sum(total_cost_usd) AS cost_usd, sum(request_count) AS requests, sum(total_prompt_tokens) AS prompt_tokens, sum(total_completion_tokens) AS completion_tokens FROM daily_cost_summary WHERE org_id = '"
    ∷ val org_id
    ∷ lit "' AND event_date BETWEEN '"
    ∷ val q.start
    ∷ lit "' AND '"
    ∷ val q.end
    ∷ lit "' "
    ∷ []

unfoldable pub build_click_house_query : Value → UsageQuery → List Fragment
build_click_house_query org_id q =
    query_start org_id q
    ++ (quoted_if "AND provider = '" q.provider
        ++ (lit " " ∷ quoted_if "AND team_id  = '" q.team_id ++ query_end q))

-- `try { return JSON.parse(raw).data } catch { return [] }`.
unfoldable pub parse_click_house_response : JsonText → Value
parse_click_house_response (json Value.null) = Value.arr (items [])
parse_click_house_response (json v) = get v "data"
parse_click_house_response (other s) = Value.arr (items [])

-- GET of ClickHouse with the statement in its query string.
abbrev pub usage_request : (click_house_url : String) → (sql : String) → FetchRequest
usage_request url sql = record {
  verb = "GET";
  url = url ∷ "/" ∷ [];
  search = ("query", str sql) ∷ [];
  headers = [];
  payload = none;
}

abbrev pub usage_reply : UsageQuery → Value → Response
usage_reply q rows = reply 200 (
    object (
      ("period", object (("start", q.start) ∷ ("end", q.end) ∷ []))
      ∷ ("group_by", q.group_by)
      ∷ ("rows", rows)
      ∷ []))

unfoldable pub find_usage :
    (Value → String) → (click_house_url : String) → User → UsageQuery → Gateway Response
unfolding render build_click_house_query parse_click_house_response
find_usage show url user q = do
  res ← await (fetch (usage_request url (render show (build_click_house_query user.org_id q))))
  raw ← await (read_text res)
  done (usage_reply q (parse_click_house_response raw))

-- GET /usage.
unfoldable pub get_usage :
    Zod → (Value → String) → (click_house_url : String) → User → Value → Gateway Response
unfolding find_usage
get_usage zod show url user request_query = do
  q ← parsed (zod usage_query_schema request_query)
  find_usage show url user (usage_query_of q)

-- GET /usage/summary: the statement, and the answer of the stub that stands for ClickHouse.
unfoldable pub summary_query : Value → List Fragment
summary_query org_id =
    lit
      " SELECT sum(total_cost_usd) AS total_cost_usd, sum(request_count) AS total_requests, sum(total_prompt_tokens + total_completion_tokens) AS total_tokens, countDistinct(team_id) AS active_teams, countDistinct(provider) AS providers_used FROM daily_cost_summary WHERE org_id = '"
    ∷ val org_id
    ∷ lit "' AND event_date >= toDate(now()) - 30 "
    ∷ []

abbrev pub stub_answer : List Fragment → Value
stub_answer sql = object (("data", Value.arr (items [])) ∷ ("rows", nat 0) ∷ [])

unfoldable pub usage_summary : User → Gateway Response
unfolding summary_query
usage_summary user = done (reply 200 (stub_answer (summary_query user.org_id)))
