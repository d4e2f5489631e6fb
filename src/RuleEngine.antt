-- ===== src/RuleEngine.antt =====
-- The rule engine (src/services/edge/rule-engine): the parser of Suricata rules, the file of dynamic
-- rules, the matcher in memory and the HTTP handlers.
pub mod Parser
pub mod Executor
pub mod Matcher
pub mod Api
pub mod Start
