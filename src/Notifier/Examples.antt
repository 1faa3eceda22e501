-- ===== src/Notifier/Examples.antt =====
-- A payment link sent by the notifier through the port that records.
use rzp_rebound.Prelude.{String}

abbrev plain : String → String
plain text = text
