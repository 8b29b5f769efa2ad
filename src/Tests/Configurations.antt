-- ===== src/Tests/Configurations.antt =====
-- The theorems on SSH configurations at a concrete file.
use connexin.Prelude.{◌≡◌, refl, [], ◌∷◌, ◌++◌, All, codes}
use connexin.Utf8.{Text}
use connexin.SshConfig.Tokens.{split_lines}
use connexin.SshConfig.Hosts.{parsed, parse_ssh_config_hosts, add_aliases}
use connexin.SshConfig.Unsafe.{IsHarmless, parse_ssh_config_hosts-IsHarmless}
use connexin.SshConfig.Aliases.{AreDistinct, IsExplicit, parse_ssh_config_hosts_aliases}

abbrev home_config : Text
home_config =
    codes "# home"
    ++ 0x0a ∷ codes "Host nas *.lan nas"
    ++ 0x0a ∷ codes "  ProxyCommand=none"
    ++ 0x0d ∷ 0x0a ∷ codes "Host web"
    ++ 0x0a ∷ codes "  User = me"
    ++ 0x0a ∷ []

home_hosts : parse_ssh_config_hosts home_config ≡ parsed (codes "nas" ∷ codes "web" ∷ [])
unfolding parse_ssh_config_hosts add_aliases
home_hosts = refl

parse_ssh_config_hosts-IsHarmless_example : All IsHarmless (split_lines home_config)
parse_ssh_config_hosts-IsHarmless_example =
    parse_ssh_config_hosts-IsHarmless home_config (codes "nas" ∷ codes "web" ∷ []) home_hosts

parse_ssh_config_hosts_aliases_example :
    AreDistinct (codes "nas" ∷ codes "web" ∷ []) × All IsExplicit (codes "nas" ∷ codes "web" ∷ [])
parse_ssh_config_hosts_aliases_example =
    parse_ssh_config_hosts_aliases home_config (codes "nas" ∷ codes "web" ∷ []) home_hosts
