-- ===== src/Seninf/Register.antt =====
-- camera/driver/seninf/mtk_seninf.c: registering the interface with the media framework, and what is
-- undone where a step fails.
use mt8183_kukui_pmos.Prelude.{
  ℕ, leb, if◌then◌else◌, Bool, true, false, not, List, [], ◌∷◌, Option, some, none,
}
use mt8183_kukui_pmos.Uapi.{Errno, enomem}
use mt8183_kukui_pmos.Seninf.State.{Seninf, num_sensors}
use mt8183_kukui_pmos.Seninf.Formats.{init_fmt}

-- An endpoint of the device tree as `v4l2_fwnode_endpoint_parse` reads it, and the answer of
-- `v4l2_async_nf_add_fwnode_remote` for it.
pub record Endpoint : Type 0 where
  pub parse : Option Errno
  pub port : ℕ
  pub is_csi2_dphy : Bool
  pub lanes : ℕ
  pub add : Option Errno

-- `struct sensor_async_subdev`
pub record SensorAsync : Type 0 where
  pub port : ℕ
  pub lanes : ℕ

-- One round of the loop of `seninf_parse_fwnode`, before the result of the rest.
unfoldable pub parse_endpoint :
    Endpoint → Option Errno × List SensorAsync → Option Errno × List SensorAsync
parse_endpoint e (answer, connections) = elim e.parse [
  | some error ↦ (some error, [])
  | none ↦
      if leb num_sensors e.port
      then (answer, connections)
      else if not e.is_csi2_dphy
      then (answer, connections)
      else elim e.add [
        | some error ↦ (some error, [])
        | none ↦ (answer, record { port = e.port; lanes = e.lanes } ∷ connections)
      ]
]

-- `seninf_parse_fwnode`: the result and the connections that the notifier got. A reference to the
-- endpoint is put after a `break`.
unfoldable pub seninf_parse_fwnode : List Endpoint → Option Errno × List SensorAsync
unfolding parse_endpoint
seninf_parse_fwnode [] = (none, [])
seninf_parse_fwnode (e ∷ rest) = parse_endpoint e (seninf_parse_fwnode rest)

-- What the registration holds.
pub record Held : Type 0 where
  pub handler : Bool
  pub entity : Bool
  pub connections : List SensorAsync
  pub notifier : Bool
  pub subdev : Bool
  pub pm : Bool

abbrev pub nothing_held : Held
nothing_held = record {
  handler = false;
  entity = false;
  connections = [];
  notifier = false;
  subdev = false;
  pm = false;
}

-- The answers of the kernel's calls.
pub record Answers : Type 0 where
  pub ioremap_base : Option Errno
  pub ioremap_rx : Option Errno
  pub kzalloc : Bool
  pub kcalloc : Bool
  pub clk_get : Option Errno
  pub handler_init : Option Errno
  pub handler_error : Option Errno
  pub pads_init : Option Errno
  pub endpoints : List Endpoint
  pub nf_register : Option Errno
  pub register_subdev : Option Errno

unfoldable pub seninf_initialize_controls : Answers → Held → Held × Option Errno
seninf_initialize_controls a h = elim a.handler_init [
  | some e ↦ (h, some e)
  | none ↦ elim a.handler_error [
    | some e ↦ (record h { handler = false }, some e)
    | none ↦ (record h { handler = true }, none)
  ]
]

-- The labels at the end of `mtk_seninf_media_register`.
abbrev pub err_free_handler : Held → Held
err_free_handler h = record h { handler = false }

abbrev pub err_clean_entity : Held → Held
err_clean_entity h = err_free_handler (record h { entity = false })

-- `v4l2_async_nf_cleanup` frees the connections.
abbrev pub err_clean_notifier : Held → Held
err_clean_notifier h = err_clean_entity (record h { connections = [] })

-- `mtk_seninf_media_register` behind the formats and the controls.
unfoldable pub media_register_entity : Answers → Held → Held × Option Errno
unfolding seninf_parse_fwnode
media_register_entity a h = elim a.pads_init [
  | some e ↦ (err_free_handler h, some e)
  | none ↦
      let (answer, connections) = seninf_parse_fwnode a.endpoints in
      let added = record h { entity = true; connections = connections } in
      elim answer [
        | some e ↦ (err_clean_entity added, some e)
        | none ↦ elim a.nf_register [
          | some e ↦ (err_clean_notifier added, some e)
          | none ↦ elim a.register_subdev [
            | some e ↦ (err_clean_notifier (record added { notifier = true }), some e)
            | none ↦ (record added { notifier = true; subdev = true }, none)
          ]
        ]
      ]
]

unfoldable pub mtk_seninf_media_register : Answers → Seninf → Held → Seninf × (Held × Option Errno)
unfolding seninf_initialize_controls media_register_entity
mtk_seninf_media_register a s h =
    let (controls, answer) = seninf_initialize_controls a h in
    elim answer [
      | some e ↦ (init_fmt s, (controls, some e))
      | none ↦ (init_fmt s, media_register_entity a controls)
    ]

-- `seninf_probe` from its first allocation on; memory of `devm_` calls is freed by the kernel. The
-- state is that of cleared memory.
unfoldable pub seninf_probe : Answers → Seninf → Seninf × (Held × Option Errno)
seninf_probe a cleared =
    if not a.kzalloc then (cleared, (nothing_held, some enomem)) else elim a.ioremap_base [
      | some e ↦ (cleared, (nothing_held, some e))
      | none ↦ elim a.ioremap_rx [
        | some e ↦ (cleared, (nothing_held, some e))
        | none ↦ if not a.kcalloc then (cleared, (nothing_held, some enomem)) else elim a.clk_get [
          | some e ↦ (cleared, (nothing_held, some e))
          | none ↦
              let (s, (h, answer)) = mtk_seninf_media_register a cleared nothing_held in
              (s, (record h { pm = true }, answer))
        ]
      ]
    ]

-- `seninf_remove`: what it gives back itself.
unfoldable pub seninf_remove : Held → Held
seninf_remove h = record h { entity = false; subdev = false; handler = false; pm = false }

-- `seninf_pm_suspend` and `seninf_pm_resume`, on whether the clocks run; the answer is that of
-- `clk_bulk_prepare_enable`.
unfoldable pub seninf_pm_suspend : Bool → Bool
seninf_pm_suspend clocks = false

unfoldable pub seninf_pm_resume : Option Errno → Bool → Bool × Option Errno
seninf_pm_resume (some e) clocks = (clocks, some e)
seninf_pm_resume none clocks = (true, none)
