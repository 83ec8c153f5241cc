-- ===== src/Types.antt =====
-- include/kronos/types.hpp: the data that the components exchange. A path is the text that
-- `path.string()` gives, in normal form: two paths are equal when their texts are.
use kronos_engine.Prelude.{ℕ, Bool, Option, List, Bytes}

pub data OperationType : Type 0 where
  delete put : OperationType

pub record InternalEntry : Type 0 where
  pub value : Bytes
  pub sequence : ℕ
  pub operation : OperationType

pub data GetStatus : Type 0 where
  found deleted not_found : GetStatus

pub record GetResult : Type 0 where
  pub value : Bytes
  pub status : GetStatus

pub record SstableMetadata : Type 0 where
  pub path : Bytes
  pub level : ℕ
  pub smallest_key : Bytes
  pub largest_key : Bytes

pub record CompactionResult : Type 0 where
  pub input_files : List Bytes
  pub output_files : List Bytes

pub record ManifestEdit : Type 0 where
  pub remove_files : List Bytes
  pub add_files : List SstableMetadata
  pub persisted_through : Option ℕ

pub record CompactionPlan : Type 0 where
  pub input_files : List SstableMetadata
  pub output_level : ℕ
  pub can_drop_tombstones : Bool
