-- ===== src/Model/LogicalAsset.antt =====
-- include/photobridge/model/logical_asset.h: the asset that a path is planned for.
use photobridge.Base.{Bytes, List, Option}
use photobridge.Model.RelativePath.{RelativePath}

pub record LogicalAsset : Type 0 where
  pub id : Bytes
  pub members : List Bytes
  pub source_path : Option RelativePath
