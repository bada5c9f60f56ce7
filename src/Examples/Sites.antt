-- ===== src/Examples/Sites.antt =====
-- Calls on sites and their aliases.
use lamund.Prelude.{◌≡◌, refl, none, List, [], ◌∷◌, codes}
use lamund.Store.Tables.{Site}
use lamund.Store.Sites.Disjoint.{IsDisjoint}
use lamund.Store.Sites.Runs.{
  SiteCall, create_one, add_alias, delete_one, run_sites, run_sites-IsDisjoint,
}
use lamund.Examples.Tables.{third_fails}

abbrev shop : Site
shop = record {
  id = 0;
  domain = codes "toko.id";
  kind = codes "static";
  proxy_target = [];
  root_path = codes "/srv/toko";
  status = [];
  user_id = 7;
  config = [];
  owner_type = [];
  owner_id = 0;
  repo_url = [];
  branch = [];
  build_cmd = [];
  output_dir = [];
}

-- The second site wants the alias of the first.
abbrev calls : List SiteCall
calls =
    create_one shop
    ∷ add_alias 1 (codes "www.toko.id")
    ∷ create_one (record shop { domain = codes "www.toko.id" })
    ∷ delete_one (codes "toko.id")
    ∷ []

run_sites-IsDisjoint_example :
    ((run_sites calls third_fails).undo ≡ none) × IsDisjoint (run_sites calls third_fails).db
run_sites-IsDisjoint_example = run_sites-IsDisjoint calls third_fails refl (tt, tt, tt)
