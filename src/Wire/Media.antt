-- ===== src/Wire/Media.antt =====
-- crates/yb-wire/src/media.rs: what routing needs from a media request.
use sovereign_gateway.Base.{String, Option}

pub record MediaRequest : Type 0 where
  pub model : String
  pub multipart_boundary : Option String
