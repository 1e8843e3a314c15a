-- ===== src/Contract/Tests.antt =====
-- A contract with one tool, and what is made from it.
use praxis_ai_agent_platform.Common.{
  String, ◌≡◌, refl, true, false, none, some, List, [], ◌∷◌, nat_eq, string_eq,
}
use praxis_ai_agent_platform.Contract.{
  TaskContract, ChildRequest, granted_tools, child_of, with_deadline_in, is_expired, authorizes,
}
use praxis_ai_agent_platform.Contract.Laws.{child_tools_narrow, disjoint_request_escalates}

abbrev search_only : TaskContract
search_only = record {
  objective = "find the outage";
  task_id = "t1";
  parent_id = none;
  tenant_id = "acme";
  inputs = [];
  artifacts = [];
  output_schema = [];
  authorized_tools = "search" ∷ [];
  acceptance_criteria = [];
  budget = none;
  deadline = some 60;
  depth = 0;
}

abbrev asks : List String → ChildRequest
asks tools = record {
  objective = "read the logs";
  tools = some tools;
  inputs = none;
  output_schema = none;
  acceptance_criteria = none;
  budget = none;
}

child_tools_narrow_example : authorizes search_only "search" ≡ true
unfolding child_of granted_tools authorizes
child_tools_narrow_example =
    child_tools_narrow "t2" search_only (asks ("shell" ∷ "search" ∷ [])) "search" refl refl

disjoint_request_escalates_example :
    authorizes (child_of "t2" search_only (asks ("shell" ∷ []))) "deploy" ≡ true
disjoint_request_escalates_example =
    disjoint_request_escalates "t2" search_only (asks ("shell" ∷ [])) ("shell" ∷ []) "deploy" refl
      refl refl

abbrev grandchild : TaskContract
grandchild = child_of "t3" (child_of "t2" search_only (asks [])) (asks [])

-- a deadline set anew is counted from now
deadline_set : is_expired 69 (with_deadline_in 10 60 search_only) ≡ false
unfolding is_expired with_deadline_in
deadline_set = refl
