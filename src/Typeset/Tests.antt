-- ===== src/Typeset/Tests.antt =====
-- Runs of the models of internal/typeset on concrete inputs.
mod Funnel
mod Registry
mod Materializer
