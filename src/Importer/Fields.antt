-- ===== src/Importer/Fields.antt =====
-- What the section that `formatOutbound` writes has under the names of single options.
use zakop.Prelude.{
  zero, suc, ◌≡◌, inl, inr, refl, ap, ◌∙◌, Bool, true, false, List, [], ◌∷◌, Option, none, some,
  arith, if◌then◌else◌, Bool-cases,
}
use zakop.Prelude.Int.{pos, negsuc}
use zakop.Text.{Str, codes, str_eq}
use zakop.Text.Number.{itoa}
use zakop.Dict.{lookup}
use zakop.Config.Access.{is_blank}
use zakop.Config.Types.{Outbound}
use zakop.Config.Uci.{Section, parse_sections}
use zakop.Importer.Format.{
  Write, option, flag, many, positive, ApplyOptions, outbound_writes, format_outbound,
}
use zakop.Importer.Quote.{flat}
use zakop.Importer.RoundTrip.{
  read_option, read_many, read_write, read_all, name_of, parse_sections-format_outbound,
}

-- What the section has under a key, for each call that writes one: a blank value writes nothing.
abbrev pub written : Str → Option Str → Option Str
written value old = if is_blank value then old else some (flat value)

abbrev pub written_many : List Str → Option Str → Option Str
written_many [] old = old
written_many (value ∷ values) old = written_many values (written value old)

abbrev pub written_by : Write → Option Str → Option Str
written_by (option name value) old = written value old
written_by (flag name value) old = if value then written (codes "1") old else old
written_by (many name values) old = written_many values old
written_by (positive name (pos zero)) old = old
written_by (positive name (pos (suc n))) old = written (itoa (suc n)) old
written_by (positive name (negsuc n)) old = old

abbrev written_all : Str → List Write → Option Str → Option Str
written_all key [] old = old
written_all key (w ∷ ws) old =
    written_all key ws (if str_eq (name_of w) key then written_by w old else old)

module _ (key : Str) where
  lookup-read_option :
      (name value : Str) (m : List (Str × Str))
      → lookup key (read_option name value m)
        ≡ (if str_eq name key then written value (lookup key m) else lookup key m)
  unfolding lookup
  lookup-read_option name value m = ground arith

  lookup-read_many :
      (name : Str) (values : List Str) (m : List (Str × Str))
      → lookup key (read_many name values m)
        ≡ (if str_eq name key then written_many values (lookup key m) else lookup key m)
  lookup-read_many name [] m = ground arith
  lookup-read_many name (value ∷ values) m =
      lookup-read_many name values (read_option name value m)
      ∙ elim (Bool-cases (str_eq name key)) [
        | inl same ↦ rw same (ap (written_many values) (lookup-read_option name value m ∙ rw same))
        | inr differ ↦ rw differ (lookup-read_option name value m ∙ rw differ)
      ]

  lookup-read_write :
      (w : Write) (m : List (Str × Str))
      → lookup key (read_write w m)
        ≡ (if str_eq (name_of w) key then written_by w (lookup key m) else lookup key m)
  lookup-read_write (option name value) m = lookup-read_option name value m
  lookup-read_write (flag name true) m = lookup-read_option name (codes "1") m
  lookup-read_write (flag name false) m = ground arith
  lookup-read_write (many name values) m = lookup-read_many name values m
  lookup-read_write (positive name (pos zero)) m = ground arith
  lookup-read_write (positive name (pos (suc n))) m = lookup-read_option name (itoa (suc n)) m
  lookup-read_write (positive name (negsuc n)) m = ground arith

  lookup-read_all :
      (ws : List Write) (m : List (Str × Str))
      → lookup key (read_all ws m) ≡ written_all key ws (lookup key m)
  lookup-read_all [] m = refl
  lookup-read_all (w ∷ ws) m =
      lookup-read_all ws (read_write w m) ∙ ap (written_all key ws) (lookup-read_write w m)

-- The value of each of these options is that of its own field.
pub record Fields (out : Outbound) (m : Str → Option Str) : Type 0 where
  pub tag : m (codes "tag") ≡ written out.tag none
  pub type : m (codes "type") ≡ written out.type none
  pub server : m (codes "server") ≡ written out.server none
  pub uuid : m (codes "uuid") ≡ written out.uuid none
  pub flow : m (codes "flow") ≡ written out.flow none
  pub server_name : m (codes "server_name") ≡ written out.server_name none
  pub transport : m (codes "transport") ≡ written out.transport none
  pub password : m (codes "password") ≡ written out.password none
  pub method : m (codes "method") ≡ written out.method none
  pub address : m (codes "address") ≡ none
  pub port : m (codes "port") ≡ written_by (positive (codes "port") out.port) none
  pub alpn : m (codes "alpn") ≡ written_many out.alpn none

written-Fields :
    (out : Outbound) (s : Str) (b : Bool)
    → Fields out (λ key.
      written_all key (outbound_writes out (record { source = s; subscription = b })) none)
unfolding outbound_writes str_eq
written-Fields out s true = record {
  tag = refl;
  type = refl;
  server = refl;
  uuid = refl;
  flow = refl;
  server_name = refl;
  transport = refl;
  password = refl;
  method = refl;
  address = refl;
  port = refl;
  alpn = refl;
}
written-Fields out [] false = record {
  tag = refl;
  type = refl;
  server = refl;
  uuid = refl;
  flow = refl;
  server_name = refl;
  transport = refl;
  password = refl;
  method = refl;
  address = refl;
  port = refl;
  alpn = refl;
}
written-Fields out (c ∷ s) false = record {
  tag = refl;
  type = refl;
  server = refl;
  uuid = refl;
  flow = refl;
  server_name = refl;
  transport = refl;
  password = refl;
  method = refl;
  address = refl;
  port = refl;
  alpn = refl;
}

-- The section that is read from the text of `formatOutbound` has under tag, type, server, uuid,
-- flow, server_name, transport, password and method the value of that field, with line breaks
-- made spaces, under port the digits of the port, under alpn the last of the values that are not
-- blank, and nothing where all of these are blank or the port is not positive. It has nothing
-- under address, and its name is the tag.
pub format_outbound-Fields :
    (out : Outbound) (opts : ApplyOptions)
    → (s : Section) × (parse_sections (format_outbound out opts) ≡ some (s ∷ []))
      × (s.name ≡ flat out.tag)
      × Fields out (λ key. lookup key s.options)
unfolding lookup
format_outbound-Fields out opts =
    let f = written-Fields out opts.source opts.subscription in
    let m = outbound_writes out opts in
    (
      _,
      parse_sections-format_outbound out opts,
      refl,
      record {
        tag = lookup-read_all (codes "tag") m [] ∙ f.tag;
        type = lookup-read_all (codes "type") m [] ∙ f.type;
        server = lookup-read_all (codes "server") m [] ∙ f.server;
        uuid = lookup-read_all (codes "uuid") m [] ∙ f.uuid;
        flow = lookup-read_all (codes "flow") m [] ∙ f.flow;
        server_name = lookup-read_all (codes "server_name") m [] ∙ f.server_name;
        transport = lookup-read_all (codes "transport") m [] ∙ f.transport;
        password = lookup-read_all (codes "password") m [] ∙ f.password;
        method = lookup-read_all (codes "method") m [] ∙ f.method;
        address = lookup-read_all (codes "address") m [] ∙ f.address;
        port = lookup-read_all (codes "port") m [] ∙ f.port;
        alpn = lookup-read_all (codes "alpn") m [] ∙ f.alpn;
      },
    )
