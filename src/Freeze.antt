-- ===== src/Freeze.antt =====
-- The trees of features of capa-x/src/freeze.rs. A `BTreeMap` of addresses is the list of its
-- entries in address order: the drivers only walk over it.
use capa_x.Prelude.{String, List}
use capa_x.Address.{Address}
use capa_x.Features.{Feature}

-- `Vec<(Address, Feature)>`
abbrev pub Located : Type 0
Located = List (Address × Feature)

pub record SampleHashes : Type 0 where
  pub md5 : String
  pub sha1 : String
  pub sha256 : String

pub record InstructionFeatures : Type 0 where
  pub features : Located

pub record BasicBlockFeatures : Type 0 where
  pub features : Located
  pub instructions : List (Address × InstructionFeatures)

pub record FunctionFeatures : Type 0 where
  pub features : Located
  pub basic_blocks : List (Address × BasicBlockFeatures)

pub record StaticFeatures : Type 0 where
  pub base_address : Address
  pub sample_hashes : SampleHashes
  pub global_features : List Feature
  pub file_features : Located
  pub functions : List (Address × FunctionFeatures)

pub record CallFeatures : Type 0 where
  pub name : String
  pub features : Located

pub record ThreadFeatures : Type 0 where
  pub features : Located
  pub calls : List (Address × CallFeatures)

pub record ProcessFeatures : Type 0 where
  pub name : String
  pub features : Located
  pub threads : List (Address × ThreadFeatures)

pub record DynamicFeatures : Type 0 where
  pub base_address : Address
  pub sample_hashes : SampleHashes
  pub global_features : List Feature
  pub file_features : Located
  pub processes : List (Address × ProcessFeatures)
