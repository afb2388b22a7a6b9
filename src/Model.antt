-- ===== src/Model.antt =====
-- packages/model/src: the parser of model responses.
pub mod JsonRepair
