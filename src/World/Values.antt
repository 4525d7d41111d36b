-- ===== src/World/Values.antt =====
-- The values that calls take and give: users, addresses, LDAP entries, ACL tokens, archive items.
use service_discover.Common.{ℕ, String, List}
use service_discover.Errors.{Error, Result}

-- `os/user`: the identifiers are texts.
pub record User : Type 0 where
  pub uid : String
  pub gid : String

pub record Group : Type 0 where
  pub gid : String

-- `net.IP`; an IPv4 address mapped into IPv6 is `v4`.
pub data Ip : Type 0 where
  v4 : (a b c d : ℕ) → Ip
  v6 : (bytes : List ℕ) → Ip

pub record Attribute : Type 0 where
  pub name : String
  pub values : List String

-- `ldap.Entry`
pub record Entry : Type 0 where
  pub dn : String
  pub attributes : List Attribute

-- One change of a modify request.
pub data Change : Type 0 where
  add_values : (attribute : String) (values : List String) → Change
  delete_values : (attribute : String) (values : List String) → Change
  replace_values : (attribute : String) (values : List String) → Change

-- `api.ACLToken`: a policy link is the policy's name.
pub record Token : Type 0 where
  pub accessor_id : String
  pub secret_id : String
  pub description : String
  pub policies : List String

-- `api.ACLTokenListEntry`
pub record ListEntry : Type 0 where
  pub accessor_id : String
  pub description : String

-- What `tar.Reader.Next` gives in turn; the end of the list is `io.EOF`. `content` is what a read
-- of the entry's data gives.
pub data Item : Type 0 where
  entry : (name : String) (content : Result String) → Item
  broken : Error → Item

-- `tar.Header`
pub record Header : Type 0 where
  pub name : String
  pub size : ℕ
  pub mode : ℕ

-- `os.FileInfo`
pub record FileInfo : Type 0 where
  pub name : String
  pub size : ℕ
  pub mode : ℕ
