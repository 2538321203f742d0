-- ===== src/Closet/Gpio.antt =====
-- The output pins of the closet and the driver calls on them: the headers of
-- src/main/include/actuators. What a call does to the hardware is not modelled here.
use hydroponic_closet.Prelude.{ℕ}

-- GPIO_CHANNEL_WP, the pump, GPIO_CHANNEL_EV_EN and GPIO_CHANNEL_EV_SW, the valve, FAN_CHANNEL,
-- RED_LIGHT_CHANNEL and BLUE_LIGHT_CHANNEL.
pub data Pin : Type 0 where
  pump valve_enable valve_switch fan red_light blue_light : Pin

pub data Call : Type 0 where
  pad_select : Pin → Call  -- esp_rom_gpio_pad_select_gpio
  set_output : Pin → Call  -- gpio_set_direction with GPIO_MODE_OUTPUT
  set_level : Pin → ℕ → Call  -- gpio_set_level
  delay : ℕ → Call  -- vTaskDelay, in ticks
