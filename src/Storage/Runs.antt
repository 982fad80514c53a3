-- ===== src/Storage/Runs.antt =====
-- crates/storage/src/memory.rs, `MemoryRunStore`.
use multi.Prelude.{
  String, ◌&&◌, not, Option, none, some, List, map, filter, find, Dict, lookup, insert,
  contains_key, ◌==◌, string_eq, if◌then◌else◌, Result, ok, err,
}
use multi.Contract.Ids.{RunId, PrincipalId, ExecutionCredentialId}
use multi.Contract.Run.{AgentRun}
use multi.Contract.Tenant.{TenantContext}
use multi.Storage.Sorting.{str_le, sort_by}

abbrev pub Store : Type 0
Store = Dict RunId AgentRun

unfoldable pub put_run : Store → AgentRun → Store × Result String AgentRun
put_run s run =
    if contains_key run.id s then (s, err "duplicate run") else (insert run.id run s, ok run)

of_tenant : TenantContext → Option AgentRun → Result String (Option AgentRun)
of_tenant tenant none = ok none
of_tenant tenant (some run) =
    if run.tenant_id == tenant.tenant_id then ok (some run) else err "tenant mismatch"

unfoldable pub get_run : Store → TenantContext → RunId → Result String (Option AgentRun)
unfolding of_tenant
get_run s tenant id = of_tenant tenant (lookup id s)

unfoldable pub list_runs_for_agent :
    Store → TenantContext → PrincipalId → Result String (List AgentRun)
list_runs_for_agent s tenant agent = ok (
    sort_by (λ a b. str_le a.id b.id)
      (filter (λ run. run.tenant_id == tenant.tenant_id && run.agent_principal == agent)
        (map (λ (id, run). run) s)))

unfoldable pub find_run_by_credential :
    Store → TenantContext → ExecutionCredentialId → Result String (Option AgentRun)
find_run_by_credential s tenant credential = ok (
    find (λ run. run.tenant_id == tenant.tenant_id && run.execution_credential == credential)
      (map (λ (id, run). run) s))

unfoldable pub update_run : Store → TenantContext → AgentRun → Store × Result String AgentRun
update_run s tenant run =
    if not (run.tenant_id == tenant.tenant_id)
    then (s, err "tenant mismatch")
    else if not (contains_key run.id s)
    then (s, err "unknown run")
    else (insert run.id run s, ok run)
