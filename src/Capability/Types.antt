-- ===== src/Capability/Types.antt =====
-- apps/server/src/capabilities/domain/capability.types.ts: who calls, what is called, and the
-- context of a call. String unions are data types; `id_text` and `client_type_text` give back the
-- strings, where the program puts them into keys.
use openviking_admin.Prelude.{String, Option}

pub data CapabilityId : Type 0 where
  knowledge_search knowledge_grep : CapabilityId
  resources_list resources_tree : CapabilityId
  knowledge_bases_list knowledge_bases_detail knowledge_bases_delete : CapabilityId
  knowledge_tree_list knowledge_tree_detail knowledge_tree_delete : CapabilityId
  documents_import_create documents_import_status documents_import_list : CapabilityId
  documents_import_cancel documents_import_retry documents_import_events : CapabilityId
  documents_index_status documents_index_rebuild : CapabilityId
  documents_draft_grep documents_extract_guide : CapabilityId

abbrev pub id_text : CapabilityId → String
id_text knowledge_search = "knowledge.search"
id_text knowledge_grep = "knowledge.grep"
id_text resources_list = "resources.list"
id_text resources_tree = "resources.tree"
id_text knowledge_bases_list = "knowledgeBases.list"
id_text knowledge_bases_detail = "knowledgeBases.detail"
id_text knowledge_bases_delete = "knowledgeBases.delete"
id_text knowledge_tree_list = "knowledgeTree.list"
id_text knowledge_tree_detail = "knowledgeTree.detail"
id_text knowledge_tree_delete = "knowledgeTree.delete"
id_text documents_import_create = "documents.import.create"
id_text documents_import_status = "documents.import.status"
id_text documents_import_list = "documents.import.list"
id_text documents_import_cancel = "documents.import.cancel"
id_text documents_import_retry = "documents.import.retry"
id_text documents_import_events = "documents.import.events"
id_text documents_index_status = "documents.index.status"
id_text documents_index_rebuild = "documents.index.rebuild"
id_text documents_draft_grep = "documents.draft.grep"
id_text documents_extract_guide = "documents.extract.guide"

pub data CredentialType : Type 0 where
  jwt_access_token capability_access_token session_key : CredentialType
  api_key scoped_api_key client_credentials : CredentialType

pub data ClientType : Type 0 where
  human cli mcp skill service : ClientType

abbrev pub client_type_text : ClientType → String
client_type_text human = "human"
client_type_text cli = "cli"
client_type_text mcp = "mcp"
client_type_text skill = "skill"
client_type_text service = "service"

pub record OvConfigProfile : Type 0 where
  pub base_url : String
  pub api_key : String
  pub account : String
  pub user : Option String

-- A role is any string that a token carries.
pub record Principal : Type 0 where
  pub user_id : String
  pub username : Option String
  pub tenant_id : Option String
  pub role : Option String
  pub scope : String
  pub credential_type : CredentialType
  pub client_type : ClientType
  pub ov_config : OvConfigProfile
