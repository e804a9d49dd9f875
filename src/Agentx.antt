-- ===== src/Agentx.antt =====
-- lib/snmpy/agentx.py: the AgentX subagent over net-snmp. `Asn` has the value classes, `NetSnmp` what
-- is asked of the C library, `Table` the table class, `Agent` the registry of the agent.
pub mod Asn
pub mod NetSnmp
pub mod Table
pub mod Agent
pub mod Process
