-- ===== src/Mib/Create.antt =====
-- `create_mib` of lib/snmpy/mibgen.py: the whole text, which is made once.
pub mod Made
use snmpy.Shared.{List, Option, Result, [], none, ok, raise, some, ◌++◌, ◌>>=◌, ◌∷◌}
use snmpy.Shared.Text.{Text, codes}
use snmpy.Mibgen.Names.{camel_case, key_prefix, mib_module, plugins_key, version_key}
use snmpy.Server.{Plugin}
use snmpy.Mib.{config_mibs, last_row, row}
use snmpy.Mib.Layout.{layout}

-- conf['snmpy_global']['parent_root'] and ['system_root'], as they are printed
pub record MibConf : Type 0 where
  pub parent : Text
  pub system : Text

-- The prefix, the version key and the plugins key in camel case.
pub record MibNames : Type 0 where
  pub big : Text
  pub version : Text
  pub plugins : Text

mib_names : Result MibNames
mib_names = do
  big ← camel_case key_prefix
  version ← camel_case version_key
  plugins ← camel_case plugins_key
  ok (record { big = big; version = version; plugins = plugins })

-- The template, from its first line to the root of the MIB.
head_rows : MibConf → Text → Text
head_rows conf date =
    row 8 (mib_module ∷ codes " DEFINITIONS ::= BEGIN" ∷ [])
    ++ row 0 []
    ++ row 8 (codes "IMPORTS" ∷ [])
    ++ row 12 (codes "MODULE-IDENTITY, OBJECT-TYPE, Integer32, Counter64   FROM SNMPv2-SMI" ∷ [])
    ++ row 12 (codes "enterprises                                          FROM SNMPv2-SMI" ∷ [])
    ++ row 12 (codes "agentxObjects                                        FROM AGENTX-MIB" ∷ [])
    ++ row 12 (codes "ucdavis                                              FROM UCD-SNMP-MIB" ∷ [])
    ++ row 12 (codes ";" ∷ [])
    ++ row 0 []
    ++ row 8 (key_prefix ∷ codes "MIB MODULE-IDENTITY" ∷ [])
    ++ row 12 (codes "LAST-UPDATED \"" ∷ date ∷ codes "\"" ∷ [])
    ++ row 12 (codes "ORGANIZATION \"N/A\"" ∷ [])
    ++ row 12
        (codes "CONTACT-INFO \"Editor: Max Kalika Email: max.kalika+projects@gmail.com\"" ∷ [])
    ++ row 12 (codes "DESCRIPTION  \"" ∷ mib_module ∷ codes "\"" ∷ [])
    ++ row 12 (codes "REVISION     \"" ∷ date ∷ codes "\"" ∷ [])
    ++ row 12 (codes "DESCRIPTION  \"autogenerated mib\"" ∷ [])
    ++ row 12 (codes "::= { " ∷ conf.parent ∷ codes " " ∷ conf.system ∷ codes " }" ∷ [])
    ++ row 0 []
    ++ row 8
        (key_prefix ∷ codes "Info OBJECT IDENTIFIER ::= { " ∷ key_prefix ∷ codes "MIB 0 }" ∷ [])
    ++ row 0 []

-- The version and the table of plugins.
info_rows : MibNames → Text
info_rows n =
    row 8 (key_prefix ∷ n.version ∷ codes " OBJECT-TYPE" ∷ [])
    ++ row 12 (codes "SYNTAX      OCTET STRING" ∷ [])
    ++ row 12 (codes "MAX-ACCESS  read-only" ∷ [])
    ++ row 12 (codes "STATUS      current" ∷ [])
    ++ row 12 (codes "DESCRIPTION \"" ∷ key_prefix ∷ n.version ∷ codes "\"" ∷ [])
    ++ row 12 (codes "::= { " ∷ key_prefix ∷ codes "Info 0 }" ∷ [])
    ++ row 0 []
    ++ row 8 (n.big ∷ n.plugins ∷ codes "Entry ::= SEQUENCE {" ∷ [])
    ++ row 12 (key_prefix ∷ n.plugins ∷ codes "Index Integer32," ∷ [])
    ++ row 12 (key_prefix ∷ n.plugins ∷ codes "Name  OCTET STRING" ∷ [])
    ++ row 8 (codes "}" ∷ [])
    ++ row 0 []
    ++ row 8 (key_prefix ∷ n.plugins ∷ codes "Table OBJECT-TYPE" ∷ [])
    ++ row 12 (codes "SYNTAX      SEQUENCE OF " ∷ n.big ∷ n.plugins ∷ codes "Entry" ∷ [])
    ++ row 12 (codes "MAX-ACCESS  not-accessible" ∷ [])
    ++ row 12 (codes "STATUS      current" ∷ [])
    ++ row 12 (codes "DESCRIPTION \"" ∷ key_prefix ∷ n.plugins ∷ codes "Table\"" ∷ [])
    ++ row 12 (codes "::= { " ∷ key_prefix ∷ codes "Info 1 }" ∷ [])
    ++ row 0 []
    ++ row 8 (key_prefix ∷ n.plugins ∷ codes "Entry OBJECT-TYPE" ∷ [])
    ++ row 12 (codes "SYNTAX      " ∷ n.big ∷ n.plugins ∷ codes "Entry" ∷ [])
    ++ row 12 (codes "MAX-ACCESS  not-accessible" ∷ [])
    ++ row 12 (codes "STATUS      current" ∷ [])
    ++ row 12 (codes "DESCRIPTION \"" ∷ key_prefix ∷ n.plugins ∷ codes "Entry\"" ∷ [])
    ++ row 12 (codes "INDEX       { " ∷ key_prefix ∷ n.plugins ∷ codes "Index }" ∷ [])
    ++ row 12 (codes "::= { " ∷ key_prefix ∷ n.plugins ∷ codes "Table 1 }" ∷ [])
    ++ row 0 []
    ++ row 8 (key_prefix ∷ n.plugins ∷ codes "Name OBJECT-TYPE" ∷ [])
    ++ row 12 (codes "SYNTAX      OCTET STRING" ∷ [])
    ++ row 12 (codes "MAX-ACCESS  read-only" ∷ [])
    ++ row 12 (codes "STATUS      current" ∷ [])
    ++ row 12 (codes "DESCRIPTION \"" ∷ key_prefix ∷ n.plugins ∷ codes "Name\"" ∷ [])
    ++ row 12 (codes "::= { " ∷ key_prefix ∷ n.plugins ∷ codes "Entry 1 }" ∷ [])

end_rows : Text → Text
end_rows parts = row 8 (parts ∷ []) ++ row 0 [] ++ row 8 (codes "END" ∷ []) ++ last_row 4

pub mib_text : MibConf → MibNames → Text → Text → Text
unfolding head_rows info_rows end_rows
mib_text conf n date parts = head_rows conf date ++ (info_rows n ++ end_rows parts)

make_mib : MibConf → Text → List Plugin → Result Text
make_mib conf date plugins = do
  parts ← config_mibs plugins
  n ← mib_names
  ok (layout (mib_text conf n date parts))

-- create_mib(conf, plugins), with `create_mib.text` and the text of the date
pub create_mib : Option Text → MibConf → Text → List Plugin → Result Text × Option Text
unfolding make_mib
create_mib (some text) conf date plugins = (ok text, some text)
create_mib none conf date plugins = elim (make_mib conf date plugins) [
  | ok text ↦ (ok text, some text)
  | raise e ↦ (raise e, none)
]
