-- ===== src/LogLine.antt =====
-- The identity logs, line by line: dhcplog.go and npslog.go.
pub mod Dhcp
pub mod Nps
pub mod Recorded
pub mod Printed

-- The three results of parseDHCPLine and parseNPSLine.
pub data LineOutcome (E X : Type 0) : Type 0 where
  skipped : LineOutcome E X
  malformed : X → LineOutcome E X
  parsed : E → LineOutcome E X
