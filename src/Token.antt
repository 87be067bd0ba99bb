-- ===== src/Token.antt =====
-- The classes of lib/token/token.js. `undefined` is `none`.
pub mod EnvChange
pub mod FeatureExtAck
pub mod Done
pub mod InfoError
pub mod LoginAck
pub mod Order
pub mod ReturnStatus
pub mod ColMetadata
pub mod Row
pub mod Sspi
pub mod FedAuthInfo
pub mod ReturnValue
use tedious.Prelude.{ℕ, Bool, Option, List}
use tedious.Prelude.Int.{ℤ}
use tedious.Buffer.{Buffer, JsString}
use tedious.Collation.{Collation}
use tedious.DataType.{DataType}
use tedious.Metadata.{Metadata, Schema, UdtInfo}
use tedious.Value.{JsValue}

-- `tableName`: undefined, the name before 7.2, or the parts of the name.
pub data TableName : Type 0 where
  unnamed : TableName
  whole_name : JsString → TableName
  name_parts : List JsString → TableName

pub record ColumnMetadata : Type 0 where
  pub user_type : ℕ
  pub flags : ℕ
  pub type : DataType
  pub collation : Option Collation
  pub precision : Option ℕ
  pub scale : Option ℕ
  pub udt_info : Option UdtInfo
  pub data_length : Option ℕ
  pub schema : Option Schema
  pub col_name : JsString
  pub table_name : TableName

pub record DoneData : Type 0 where
  pub more : Bool
  pub sql_error : Bool
  pub attention : Bool
  pub server_error : Bool
  pub row_count : Option ℕ
  pub cur_cmd : ℕ

pub record MessageData : Type 0 where
  pub number : ℕ
  pub state : ℕ
  pub clazz : ℕ
  pub message : JsString
  pub server_name : JsString
  pub proc_name : JsString
  pub line_number : ℕ

pub record ProgVersion : Type 0 where
  pub major : ℕ
  pub minor : ℕ
  pub build_num_hi : ℕ
  pub build_num_low : ℕ

pub record LoginAckData : Type 0 where
  pub interface : Option JsString
  pub tds_version : Option JsString
  pub prog_name : JsString
  pub prog_version : ProgVersion

pub record Routing : Type 0 where
  pub protocol : ℕ
  pub port : ℕ
  pub server : JsString

-- One constructor a class; parseInt may give NaN.
pub data EnvChangeData : Type 0 where
  database language charset database_mirroring_partner : JsString → JsString → EnvChangeData
  packet_size : Option ℤ → Option ℤ → EnvChangeData
  begin_transaction commit_transaction rollback_transaction reset_connection :
      Buffer → Buffer → EnvChangeData
  collation_change : Option Collation → Option Collation → EnvChangeData
  routing : Routing → Buffer → EnvChangeData

-- `{ value, metadata }`
pub record Cell : Type 0 where
  pub value : JsValue
  pub metadata : ColumnMetadata

-- With `useColumnNames` an object, as the list of its columns, each under its own `colName`; else an array.
pub data RowColumns : Type 0 where
  array by_name : List Cell → RowColumns

pub record ReturnValueData : Type 0 where
  pub param_ordinal : ℕ
  pub param_name : JsString
  pub metadata : Metadata
  pub value : JsValue

-- The `magic` is kept as its bytes.
pub record Challenge : Type 0 where
  pub magic : Buffer
  pub type : ℤ
  pub domain_len : ℤ
  pub domain_max : ℤ
  pub domain_offset : ℤ
  pub flags : ℤ
  pub nonce : Buffer
  pub zeroes : Buffer
  pub target_len : ℤ
  pub target_max : ℤ
  pub target_offset : ℤ
  pub odd_data : Buffer
  pub domain : JsString
  pub target : Buffer

pub data Token : Type 0 where
  col_metadata : List ColumnMetadata → Token
  done done_in_proc done_proc : DoneData → Token
  info_message error_message : MessageData → Token
  login_ack : LoginAckData → Token
  order : List ℕ → Token
  return_status : ℤ → Token
  feature_ext_ack : Option Buffer → Option Bool → Token
  env_change : EnvChangeData → Token
  row nbc_row : RowColumns → Token
  return_value : ReturnValueData → Token
  sspi : Challenge → Buffer → Token
  fed_auth_info : Option JsString → Option JsString → Token
